-- ===== src/GithubLogin/States.antt =====
-- A state of a login serves once.
use gitwise.Prelude.{
  ℕ, ◌+◌, String, Bool, true, false, not, Option, none, some, List, [], ◌∷◌, ◌≡◌, refl, ap, ◌∙◌,
  arith, ltb, str_eq, str_eq_refl, any, keep,
}
use gitwise.GithubLogin.{State, is_live, has_name, generate_state, validate_state}

gone :
    (now : ℕ) (name : String) (ss : List State)
    → any (is_live now name) (keep (λ s. not (has_name name s)) ss) ≡ false
gone now name [] = refl
gone now name (s ∷ ss) = ground (arith, gone now name ss)

-- A state that `GenerateState` gives is accepted by `ValidateState` until ten minutes have passed, and not
-- from then on; once Redis was asked for it, it is refused at any later time. This is if Redis does not
-- fail at these two questions.
pub generate_state-validate_state :
    (hex : List ℕ → String) (fails : Bool) (now : ℕ) (drawn : Option (List ℕ)) (ss : List State)
    (name : String)
    → (generate_state hex fails now drawn ss).0 ≡ some name
    → (at again : ℕ)
    → let asked = validate_state false at name (generate_state hex fails now drawn ss).1 in
      (asked.0 ≡ ltb at (now + 600_000)) × ((validate_state false again name asked.1).0 ≡ false)
unfolding generate_state validate_state
generate_state-validate_state hex true now none ss name h at again = cc
generate_state-validate_state hex false now none ss name h at again = cc
generate_state-validate_state hex true now (some b) ss name h at again = cc
generate_state-validate_state hex false now (some b) ss name h at again =
    let same : hex b ≡ name = ground arith in
    let own : str_eq (hex b) name ≡ true =
      ap (λ (x : String). str_eq x name) same ∙ str_eq_refl name in
    let others : any (is_live at name) (keep (λ s. not (has_name (hex b) s)) ss) ≡ false =
      ap (λ (x : String). any (is_live at name) (keep (λ s. not (has_name x s)) ss)) same
      ∙ gone at name ss in
    (ground arith, gone again name (generate_state hex false now (some b) ss).1)
