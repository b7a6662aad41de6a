-- ===== src/Protection.antt =====
-- internal/services/protection/service.go: the branch protection rules of a repository.
pub mod Glob
pub mod Check
use gitwise.Prelude.{
  ℕ, ℤ, is_neg, String, Bool, true, false, not, ◌&&◌, ◌||◌, Option, none, some, List, [], ◌∷◌, ◌++◌,
  ltb, ◌==◌, if◌then◌else◌, str_eq, find, any, keep, update_where,
}
use gitwise.Text.{trim_space, byte_len}
use gitwise.Action.{Action, Faults, pure, raise, gets, or_raise, modify, raise_if, ◌>>=◌, ◌>>◌}
use gitwise.Db.{Db, BranchProtection}
use gitwise.Db.Order.{order_by}
use gitwise.Protection.Glob.{match_branch}

pub data Error : Type 0 where
  not_found duplicate invalid_pattern invalid_input internal : Error

pub record CreateBranchProtectionRequest : Type 0 where
  pub branch_pattern : String
  pub required_reviews : ℤ
  pub require_linear : Bool

pub record UpdateBranchProtectionRequest : Type 0 where
  pub required_reviews : Option ℤ
  pub require_linear : Option Bool

abbrev pub clashes : BranchProtection → BranchProtection → Bool
clashes new r =
    r.id == new.id || (r.repo_id == new.repo_id && str_eq r.branch_pattern new.branch_pattern)

unfoldable pub create :
    Faults → ℕ → ℕ → ℕ → CreateBranchProtectionRequest → Action Db Error BranchProtection
create fails new_id now repo_id req = do
  let pattern = trim_space req.branch_pattern
  raise_if (str_eq pattern "" || ltb 255 (byte_len pattern)) invalid_pattern
  raise_if (is_neg req.required_reviews) invalid_input
  let rule : BranchProtection = record {
    id = new_id;
    repo_id = repo_id;
    branch_pattern = pattern;
    required_reviews = req.required_reviews;
    require_linear = req.require_linear;
    created_at = now;
    updated_at = now;
  }
  raise_if (fails 0) internal
  taken ← gets (λ db. any (clashes rule) db.branch_protection_rules)
  raise_if taken duplicate
  modify (λ db. record db { branch_protection_rules = db.branch_protection_rules ++ rule ∷ [] })
  pure rule

abbrev pub rules_of : (String → String → Bool) → ℕ → Db → List BranchProtection
rules_of collate repo_id db =
    order_by (λ a b. collate a.branch_pattern b.branch_pattern)
      (keep (λ r. r.repo_id == repo_id) db.branch_protection_rules)

-- `collate` is the database's order of texts
unfoldable pub list :
    (String → String → Bool) → Faults → ℕ → Action Db Error (List BranchProtection)
list collate fails repo_id = do raise_if (fails 0) internal; gets (rules_of collate repo_id)

abbrev pub is_negative : Option ℤ → Bool
is_negative none = false
is_negative (some z) = is_neg z

abbrev pub or_old {ℓ} : {A : Type ℓ} → Option A → A → A
or_old none old = old
or_old (some new) old = new

abbrev pub is_rule : ℕ → ℕ → BranchProtection → Bool
is_rule repo_id rule_id r = r.id == rule_id && r.repo_id == repo_id

unfoldable pub update :
    Faults → ℕ → ℕ → ℕ → UpdateBranchProtectionRequest → Action Db Error BranchProtection
update fails now repo_id rule_id req = do
  raise_if (is_negative req.required_reviews) invalid_input
  raise_if (fails 0) internal
  modify λ db. record db {
    branch_protection_rules =
        update_where (is_rule repo_id rule_id)
          (λ r. record r {
            required_reviews = or_old req.required_reviews r.required_reviews;
            require_linear = or_old req.require_linear r.require_linear;
            updated_at = now;
          })
          db.branch_protection_rules;
  }
  found ← gets (λ db. find (is_rule repo_id rule_id) db.branch_protection_rules)
  or_raise found not_found

unfoldable pub delete : Faults → ℕ → ℕ → Action Db Error (Unit {0})
delete fails repo_id rule_id = do
  raise_if (fails 0) internal
  affected ← gets (λ db. any (is_rule repo_id rule_id) db.branch_protection_rules)
  modify λ db. record db {
    branch_protection_rules =
        keep (λ r. not (is_rule repo_id rule_id r)) db.branch_protection_rules;
  }
  raise_if (not affected) not_found

-- the first rule, by pattern, that matches; `none` is the nil rule
unfoldable pub check :
    (String → String → Bool) → Faults → ℕ → String → Action Db Error (Option BranchProtection)
unfolding list
check collate fails repo_id branch_name = do
  rules ← list collate fails repo_id
  pure (find (λ r. match_branch r.branch_pattern branch_name) rules)
