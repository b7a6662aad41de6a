-- ===== src/Pull/Merging.antt =====
-- When `Merge` succeeds, and what it leaves behind when it does not.
use gitwise.Prelude.{
  ℕ, zero, suc, ◌≤◌, ℤ, pos, negsuc, count_below, String, Bool, true, false, Option, none, some,
  ◌≡◌, ◌≢◌, refl, subst, inl, inr, arith, ◌&&◌, str_eq_iff, Option-cases,
}
use gitwise.Action.{Faults, after, ok, Result-cases}
use gitwise.Db.{Db, PullRow, BranchProtection}
use gitwise.Protection.Check.{IsVerdict, check_result}
use gitwise.Pull.{PullRequest, find_pull}
use gitwise.Pull.Merge.{approval_count, needs_reviews, obey, protection, check_pull, admit}

-- `n` reviews are as many as are required
abbrev pub Enough : ℕ → ℤ → Type 0
Enough n (pos m) = m ≤ n
Enough n (negsuc m) = Unit

-- the demands of the rule on the target branch are met
abbrev pub Obeyed : Db → ℕ → String → Option BranchProtection → Type 0
Obeyed db pr strategy none = Unit
Obeyed db pr strategy (some rule) =
    Enough (approval_count pr db) rule.required_reviews
    × (rule.require_linear ≡ true → strategy ≢ "merge")

enough : (n : ℕ) (z : ℤ) → (needs_reviews z && count_below n z) ≡ false → Enough n z
enough n (pos zero) h = omega arith
enough n (pos (suc m)) h = ground arith
enough n (negsuc m) h = tt

obey_db :
    (fails : Faults) (pr : ℕ) (strategy : String) (o : Option BranchProtection) (db : Db)
    → (obey fails pr strategy o db).1 ≡ db
unfolding obey
obey_db fails pr strategy none db = refl
obey_db fails pr strategy (some rule) db = ground arith

obey_ok :
    (fails : Faults) (pr : ℕ) (strategy : String) (o : Option BranchProtection) (db : Db)
    → (obey fails pr strategy o db).0 ≡ ok tt
    → Obeyed db pr strategy o
unfolding obey
obey_ok fails pr strategy none db h = tt
obey_ok fails pr strategy (some rule) db h = (
  enough (approval_count pr db) rule.required_reviews (ground arith),
  λ l e. ground (arith, str_eq_iff strategy "merge", e),
)

module _ (collate : String → String → Bool) (fails : Faults) (repo number : ℕ) (db : Db) where
  protection_db : (branch : String) → (protection collate fails repo branch db).1 ≡ db
  unfolding protection
  protection_db branch = ground arith

  protection_ok :
      (branch : String) (o : Option BranchProtection)
      → (protection collate fails repo branch db).0 ≡ ok o
      → IsVerdict db repo branch o
  unfolding protection
  protection_ok branch o h = check_result collate db repo branch (after 3 fails) o (ground arith)

  check_pull_db :
      (strategy : String) (p : PullRow) → (check_pull collate fails repo strategy p db).1 ≡ db
  unfolding check_pull
  check_pull_db strategy p =
      let kept = protection_db p.target_branch in
      elim (Result-cases (protection collate fails repo p.target_branch db).0) [
        | inl (rule, e) ↦ ground (arith, kept, obey_db fails p.id strategy rule db)
        | inr (x, e) ↦ ground (arith, kept)
      ]

  -- what the checks have established of a row that they let through
  abbrev pub IsMergeable : String → PullRow → Type 0
  IsMergeable strategy p =
      (p.status ≡ "open")
      × ((o : Option BranchProtection) × IsVerdict db repo p.target_branch o
          × Obeyed db p.id strategy o)

  check_pull_ok :
      (strategy : String) (p : PullRow)
      → (check_pull collate fails repo strategy p db).0 ≡ ok tt
      → IsMergeable strategy p
  unfolding check_pull
  check_pull_ok strategy p h =
      let kept = protection_db p.target_branch in
      let opened : p.status ≡ "open" = ground (arith, str_eq_iff p.status "open") in
      elim (Result-cases (protection collate fails repo p.target_branch db).0) [
        | inl (rule, e) ↦
            let obeyed : (obey fails p.id strategy rule db).0 ≡ ok tt = ground (arith, kept) in
            (
              opened,
              (
                rule,
                protection_ok p.target_branch rule e,
                obey_ok fails p.id strategy rule db obeyed,
              ),
            )
        | inr (x, e) ↦ absurd (ground (arith, kept))
      ]

  pub admit_db : (strategy : String) → (admit collate fails repo number strategy db).1 ≡ db
  unfolding admit
  admit_db strategy = elim (Option-cases (find_pull repo number db)) [
    | inl e ↦ ground arith
    | inr (pr, e) ↦ ground (arith, check_pull_db strategy pr.row)
  ]

  admit_passes :
      (strategy : String) (q : PullRequest)
      → find_pull repo number db ≡ some q
      → fails 1 ≡ false
      → fails 2 ≡ false
      → (check_pull collate fails repo strategy q.row db).0 ≡ ok tt
      → (admit collate fails repo number strategy db).0 ≡ ok q
  unfolding admit
  admit_passes strategy q e f1 f2 c = ground arith

  pub admit_ok :
      (strategy : String) (pr : PullRequest)
      → (admit collate fails repo number strategy db).0 ≡ ok pr
      → (find_pull repo number db ≡ some pr) × IsMergeable strategy pr.row
  unfolding admit
  admit_ok strategy pr h = elim (Option-cases (find_pull repo number db)) [
    | inl e ↦ absurd (ground arith)
    | inr (q, e) ↦
        let passed : (check_pull collate fails repo strategy q.row db).0 ≡ ok tt = ground arith in
        let f1 : fails 1 ≡ false = ground arith in
        let f2 : fails 2 ≡ false = ground arith in
        let e' : (admit collate fails repo number strategy db).0 ≡ ok q =
          admit_passes strategy q e f1 f2 passed in
        let same : q ≡ pr = cc in
        subst
          (λ (x : PullRequest). (find_pull repo number db ≡ some x) × IsMergeable strategy x.row)
          same (e, check_pull_ok strategy q.row passed)
  ]
