-- ===== src/RateLimit/Window.antt =====
-- How many requests pass within a window.
use gitwise.Prelude.{
  ℕ, suc, ◌+◌, ◌-◌, ◌≤◌, ◌<◌, String, Bool, true, false, none, some, List, [], ◌∷◌, ◌≡◌, ◌∙◌, arith,
  leb, if◌then◌else◌, if_true, str_eq_refl, All,
}
use gitwise.Action.{no_faults}
use gitwise.RateLimit.{Store, live, Verdict, unavailable, limited, passes, rate_limit}

abbrev pub is_pass : Verdict → Bool
is_pass unavailable = false
is_pass (limited s) = false
is_pass (passes n) = true

module _ (seconds : ℕ → ℕ) (limit window : ℕ) (key : String) where
  abbrev pub answer : Store → ℕ → Verdict × Store
  answer store now = rate_limit seconds no_faults now limit window key store

  -- how many of the requests at these times pass
  unfoldable pub passed : Store → List ℕ → ℕ
  passed store [] = 0
  passed store (now ∷ rest) =
      let more = passed (answer store now).1 rest in
      if is_pass (answer store now).0 then suc more else more

  -- a request while the key is there
  step :
      (store : Store) (now e n : ℕ)
      → store key ≡ some (record { count = suc n; expires = some e })
      → now < e
      → ((answer store now).1 key ≡ some (record { count = suc (suc n); expires = some e }))
        × (is_pass (answer store now).0 ≡ leb (suc (suc n)) limit)
  unfolding rate_limit
  step store now e n h early = (if_true _ _ (str_eq_refl key) ∙ ground arith, ground arith)

  counted :
      (store : Store) (e n : ℕ) (times : List ℕ)
      → store key ≡ some (record { count = suc n; expires = some e })
      → All (λ now. now < e) times
      → passed store times ≤ limit - suc n
  unfolding passed
  counted store e n [] h early = omega arith
  counted store e n (now ∷ rest) h early =
      let (next, pass) = step store now e n h early.0 in
      ground (arith, counted (answer store now).1 e (suc n) rest next early.1)

  opens :
      (store : Store) (start : ℕ)
      → live start (store key) ≡ none
      → ((answer store start).1 key ≡ some (record { count = 1; expires = some (start + window) }))
        × (is_pass (answer store start).0 ≡ leb 1 limit)
  unfolding rate_limit
  opens store start h = (if_true _ _ (str_eq_refl key) ∙ ground arith, ground arith)

  -- If the key is not there or has expired, then of a request and those after it, before a window's
  -- length has gone by, at most as many pass as the limit says, if no statement fails.
  pub passed_bound :
      (store : Store) (start : ℕ) (times : List ℕ)
      → live start (store key) ≡ none
      → All (λ now. now < start + window) times
      → passed store (start ∷ times) ≤ limit
  unfolding passed
  passed_bound store start times h early =
      let (next, pass) = opens store start h in
      ground (arith, counted (answer store start).1 (start + window) 0 times next early)
