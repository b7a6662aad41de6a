-- ===== src/Protection/Check.antt =====
-- The rule that `Check` finds, and what stays of a rule under an update.
use mathlib.Core.List.{Memᴰ}
use gitwise.Prelude.{
  ℕ, String, Bool, true, false, Option, none, some, ◌≡◌, refl, ◌==◌, arith, find, find_sound,
  find-Mem, find-eq-none, keep-Mem, Mem-keep,
}
use gitwise.Action.{Faults, ok}
use gitwise.Db.{Db, BranchProtection}
use gitwise.Db.Order.{order_by-Mem, Mem-order_by}
use gitwise.Protection.{rules_of, check}
use gitwise.Protection.Glob.{match_branch}

-- `r` is a rule of the repository whose pattern matches the branch
pub record Protects (db : Db) (repo : ℕ) (branch : String) (r : BranchProtection) : Type 0 where
  pub listed : Memᴰ r db.branch_protection_rules
  pub of_repo : r.repo_id ≡ repo
  pub matched : match_branch r.branch_pattern branch ≡ true

-- a found rule protects the branch; no rule is found only where none protects it
abbrev pub IsVerdict : Db → ℕ → String → Option BranchProtection → Type 0
IsVerdict db repo branch none = (r : BranchProtection) → ¬ (Protects db repo branch r)
IsVerdict db repo branch (some r) = Protects db repo branch r

module _ (collate : String → String → Bool) (db : Db) (repo : ℕ) (branch : String) where
  abbrev verdict : Option BranchProtection
  verdict = find (λ r. match_branch r.branch_pattern branch) (rules_of collate repo db)

  verdict-IsVerdict : (o : Option BranchProtection) → verdict ≡ o → IsVerdict db repo branch o
  verdict-IsVerdict none e = λ r p.
      let m = Mem-order_by _ r _ (Mem-keep (λ x. x.repo_id == repo) _ r p.listed (ground arith)) in
      cc (find-eq-none _ (rules_of collate repo db) r e m, p.matched)
  verdict-IsVerdict (some r) e =
      let m = order_by-Mem _ r _ (find-Mem _ (rules_of collate repo db) r e) in
      let (listed, same) = keep-Mem (λ x. x.repo_id == repo) _ r m in
      record {
        listed = listed;
        of_repo = ground arith;
        matched = find_sound _ (rules_of collate repo db) r e;
      }

  -- Unless the statement fails, `Check` returns a rule of the repository whose pattern matches the
  -- branch, or no rule when the repository has none that matches. It writes nothing.
  pub check-IsVerdict :
      (fails : Faults)
      → fails 0 ≡ false
      → (o : Option BranchProtection) × (check collate fails repo branch db ≡ (ok o, db))
        × IsVerdict db repo branch o
  unfolding check
  check-IsVerdict fails h = (verdict, rw h, verdict-IsVerdict verdict refl)

  pub check_result :
      (fails : Faults) (o : Option BranchProtection)
      → (check collate fails repo branch db).0 ≡ ok o
      → IsVerdict db repo branch o
  unfolding check
  check_result fails o h = verdict-IsVerdict o (ground arith)
