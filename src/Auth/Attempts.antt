-- ===== src/Auth/Attempts.antt =====
-- How many codes can be tried with one pending token.
use gitwise.Prelude.{
  ℕ, suc, ◌+◌, ◌≤◌, ◌<◌, String, Bool, true, false, not, Option, some, List, [], ◌∷◌, ◌≡◌, refl,
  sym, subst, ap, ◌∙◌, ◌⊎◌, inl, inr, arith, leb, str_eq, find, if◌then◌else◌, Option-cases,
  Bool-cases, All, All-append, All-find, find_sound,
}
use gitwise.Action.{Result, ok, err, no_faults, Result-cases}
use gitwise.Auth.{Crypto, Pending, World, is_pending, without}
use gitwise.Auth.Totp.{
  max_attempts, stored, verify, validate_pending_auth, increment_attempts, consume_pending_auth,
  bump,
}
use gitwise.Auth.Login.{finish, verify_2fa}
use gitwise.Auth.Stages.{Outcome, pair_eq, verify_2fa_refuses, verify_2fa_stops, verify_2fa-finish}
use gitwise.Auth.Safety.{validate_pending, finish-opens}

module _ (c : Crypto) (key : Option (List ℕ)) (token : String) where
  -- a call of `Verify2FA` with the token: its time, its session identifier, its code
  abbrev pub Attempt : Type 0
  Attempt = ℕ × Option String × String

  -- the code of the attempt is checked, and wrong
  abbrev pub is_wrong : Result gitwise.Auth.Totp.Error Bool → Bool
  is_wrong (ok valid) = not valid
  is_wrong (err e) = false

  abbrev pub is_checked_wrong : ℕ → String → World → Result gitwise.Auth.Totp.Error ℕ → Bool
  is_checked_wrong now code w (err e) = false
  is_checked_wrong now code w (ok user_id) =
      is_wrong (verify c key no_faults now user_id code w.db).0

  abbrev pub is_miss : World → Attempt → Bool
  is_miss w (now, sid, code) =
      if str_eq code ""
      then false
      else is_checked_wrong now code w (validate_pending_auth no_faults now token w).0

  abbrev pub after_attempt : World → Attempt → World
  after_attempt w (now, sid, code) = (verify_2fa c key no_faults now sid code (some token) w).1

  -- how many attempts of a sequence have a wrong code checked
  pub misses : World → List Attempt → ℕ
  misses w [] = 0
  misses w (a ∷ rest) =
      let more = misses (after_attempt w a) rest in if is_miss w a then suc more else more

  -- the token has failed so often at least, wherever it is
  abbrev pub HasFailed : ℕ → Pending → Type 0
  HasFailed n p = (str_eq p.token token ≡ false) ⊎ (n ≤ p.attempts)

  without-HasFailed : (n : ℕ) (ps : List Pending) → All (HasFailed n) (without token ps)
  without-HasFailed n [] = tt
  without-HasFailed n (p ∷ ps) = elim (Bool-cases (str_eq p.token token)) [
    | inl e ↦ rw e (without-HasFailed n ps)
    | inr e ↦ rw e (inl e, without-HasFailed n ps)
  ]

  bump-HasFailed :
      (now n : ℕ) (p : Pending) (ps : List Pending)
      → n ≤ p.attempts
      → All (HasFailed (suc n)) (bump c now token (some p) ps)
  bump-HasFailed now n p ps h = elim (Bool-cases (leb max_attempts (p.attempts + 1))) [
    | inl full ↦ rw full (without-HasFailed (suc n) ps)
    | inr left ↦ rw left (
        All-append (HasFailed (suc n)) (without token ps) _ (without-HasFailed (suc n) ps)
          (inr (omega arith), tt))
  ]

  found-HasFailed :
      (now n : ℕ) (p : Pending) (ps : List Pending)
      → All (HasFailed n) ps
      → find (is_pending now token) ps ≡ some p
      → n ≤ p.attempts
  found-HasFailed now n p ps v e = elim (All-find (HasFailed n) (is_pending now token) ps p v e) [
    | inl other ↦ absurd (ground (arith, find_sound (is_pending now token) ps p e))
    | inr h ↦ h
  ]

  -- a lookup of the token leaves the pending tokens as they are, or deletes it
  validate_cases :
      (now : ℕ) (w : World)
      → ((validate_pending_auth no_faults now token w).1.pending ≡ w.pending)
        ⊎ ((validate_pending_auth no_faults now token w).1.pending ≡ without token w.pending)
  unfolding validate_pending_auth
  validate_cases now w = elim (Option-cases (find (is_pending now token) w.pending)) [
    | inl e ↦ ground arith
    | inr (p, e) ↦ ground arith
  ]

  -- what one attempt does: nothing to the count, or a miss
  Step : ℕ → World → Attempt → Type 0
  Step n w a =
      ((is_miss w a ≡ false) × All (HasFailed n) (after_attempt w a).pending)
      ⊎ ((is_miss w a ≡ true)
          × (n < max_attempts)
          × All (HasFailed (suc n)) (after_attempt w a).pending)

  abbrev pending_of : Outcome → List Pending
  pending_of r = r.1.pending

  module _ (n now : ℕ) (sid : Option String) (code : String) (w : World)
      (v : All (HasFailed n) w.pending) where
    step_empty : str_eq code "" ≡ true → Step n w (now, sid, code)
    unfolding verify_2fa Step
    step_empty e =
        let same : (verify_2fa c key no_faults now sid code (some token) w).1.pending ≡ w.pending =
          rw e refl in
        inl (rw e refl, subst (All (HasFailed n)) (sym same) v)

    module _ (given : str_eq code "" ≡ false) (sent : str_eq token "" ≡ false) where
      step_refused :
          (x : gitwise.Auth.Totp.Error)
          → (validate_pending_auth no_faults now token w).0 ≡ err x
          → Step n w (now, sid, code)
      unfolding Step
      step_refused x g = inl (
        rw (given, g) refl,
        subst (All (HasFailed n))
            (sym (
              ap pending_of
                (verify_2fa_refuses c key no_faults now sid (some token) code w given sent x g)))
            (elim (validate_cases now w) [
              | inl e ↦ rw e v
              | inr e ↦ rw e (without-HasFailed n w.pending)
            ]),
      )

      module _ (user_id : ℕ)
          (found : (validate_pending_auth no_faults now token w).0 ≡ ok user_id) where
        step_stopped :
            (x : gitwise.Auth.Totp.Error)
            → (verify c key no_faults now user_id code w.db).0 ≡ err x
            → Step n w (now, sid, code)
        unfolding Step
        step_stopped x h =
            let (p, same) = validate_pending c no_faults now user_id token w found in
            inl (
              rw (given, found, h) refl,
              subst (All (HasFailed n))
                  (sym (
                    ap pending_of (
                      verify_2fa_stops c key no_faults now sid (some token) code w given sent
                        user_id
                        (pair_eq (validate_pending_auth no_faults now token w) (ok user_id) w found
                          same)
                        x h)))
                  v,
            )

        passed :
            (valid : Bool)
            → (verify c key no_faults now user_id code w.db).0 ≡ ok valid
            → (after_attempt w (now, sid, code)).pending
              ≡ (finish c no_faults now sid token user_id valid
                  (record w { db = (verify c key no_faults now user_id code w.db).1 })).1.pending
        passed valid h =
            let (p, same) = validate_pending c no_faults now user_id token w found in
            ap pending_of (
              verify_2fa-finish c key no_faults now sid (some token) code w given sent user_id
                (pair_eq (validate_pending_auth no_faults now token w) (ok user_id) w found same)
                valid h)

        step_missed :
            (verify c key no_faults now user_id code w.db).0 ≡ ok false → Step n w (now, sid, code)
        unfolding Step increment_attempts
        step_missed h =
            let ((p, live, below, _), same) =
              validate_pending c no_faults now user_id token w found in
            let reached = found-HasFailed now n p w.pending v live in
            let bumped : (after_attempt w (now, sid, code)).pending
                ≡ bump c now token (some p) w.pending =
              passed false h ∙ ap (λ o. bump c now token o w.pending) live in
            inr (
              rw (given, found, h) refl,
              omega arith,
              subst (All (HasFailed (suc n))) (sym bumped)
                  (bump-HasFailed now n p w.pending reached),
            )

        step_passed :
            (verify c key no_faults now user_id code w.db).0 ≡ ok true → Step n w (now, sid, code)
        unfolding Step
        step_passed h = inl (
          rw (given, found, h) refl,
          subst (All (HasFailed n))
              (sym (
                passed true h
                ∙ (finish-opens c no_faults now user_id sid token
                    (record w { db = (verify c key no_faults now user_id code w.db).1 })).1))
              (without-HasFailed n w.pending),
        )

  step :
      (n : ℕ) (w : World) (a : Attempt)
      → str_eq token "" ≡ false
      → All (HasFailed n) w.pending
      → Step n w a
  step n w (now, sid, code) sent v = elim (Bool-cases (str_eq code "")) [
    | inl e ↦ step_empty n now sid code w v e
    | inr given ↦ elim (Result-cases (validate_pending_auth no_faults now token w).0) [
      | inr (x, g) ↦ step_refused n now sid code w v given sent x g
      | inl (user_id, found) ↦
          elim (Result-cases (verify c key no_faults now user_id code w.db).0) [
            | inr (x, h) ↦ step_stopped n now sid code w v given sent user_id found x h
            | inl (true, h) ↦ step_passed n now sid code w v given sent user_id found h
            | inl (false, h) ↦ step_missed n now sid code w v given sent user_id found h
          ]
    ]
  ]

  misses_from :
      (n : ℕ) (w : World) (attempts : List Attempt)
      → str_eq token "" ≡ false
      → n ≤ max_attempts
      → All (HasFailed n) w.pending
      → misses w attempts + n ≤ max_attempts
  unfolding misses Step
  misses_from n w [] sent h v = omega arith
  misses_from n w (a ∷ rest) sent h v = elim (step n w a sent v) [
    | inl (e, v') ↦ rw e (misses_from n (after_attempt w a) rest sent h v')
    | inr (e, below, v') ↦
        rw e (omega (arith, misses_from (suc n) (after_attempt w a) rest sent (omega arith) v'))
  ]

  all_zero : (ps : List Pending) → All (HasFailed 0) ps
  all_zero [] = tt
  all_zero (p ∷ ps) = (inr (omega arith), all_zero ps)

  -- In any sequence of calls of `Verify2FA` with one pending token, at any times and with any codes,
  -- at most five wrong codes are checked, if no statement fails.
  pub misses_bound :
      (w : World) (attempts : List Attempt)
      → str_eq token "" ≡ false
      → misses w attempts ≤ max_attempts
  misses_bound w attempts sent =
      omega (arith, misses_from 0 w attempts sent (omega arith) (all_zero w.pending))
