-- ===== src/Tests/Limits.antt =====
-- A limit of two requests in a window of ten.
use gitwise.Prelude.{◌≤◌, none, [], ◌∷◌, ◌≡◌, refl, arith}
use gitwise.RateLimit.{Store, rate_limit}
use gitwise.RateLimit.Window.{passed, passed_bound}

abbrev nothing : Store
nothing k = none

two_pass : passed (λ n. n) 2 10 "1.2.3.4" nothing (5 ∷ 6 ∷ 7 ∷ 14 ∷ []) ≡ 2
unfolding passed rate_limit
two_pass = refl

passed_bound_example : passed (λ n. n) 2 10 "1.2.3.4" nothing (5 ∷ 6 ∷ 7 ∷ 14 ∷ []) ≤ 2
passed_bound_example =
    passed_bound (λ n. n) 2 10 "1.2.3.4" nothing 5 (6 ∷ 7 ∷ 14 ∷ []) refl
      (omega arith, (omega arith, (omega arith, tt)))
