-- ===== src/Pull/Merge.antt =====
-- `Merge` of internal/services/pull/service.go.
use gitwise.Prelude.{
  ℕ, zero, suc, ℤ, pos, negsuc, count_below, String, Bool, true, false, not, ◌&&◌, ◌||◌, Option,
  none, some, List, [], ◌∷◌, ltb, ◌==◌, if◌then◌else◌, str_eq, any, keep, update_where,
}
use Prim.Native.Nat.{◌/◌, ◌%◌}
use Prim.Native.String
use gitwise.Action.{
  Action, Result, ok, err, Faults, after, pure, raise, gets, or_raise, modify, raise_if, ◌>>=◌,
  ◌>>◌,
}
use gitwise.Db.{Db, PullRow, UserRow, ReviewRow, BranchProtection}
use gitwise.Git.{Git}
use gitwise.Protection
use gitwise.Pull.{
  Error, not_found, invalid_status, already_merged, not_open, merge_failed, insufficient_reviews,
  linear_required, internal, World, PullRequest, user_of, username_of, is_pull, find_pull, on_db,
  transaction,
}

pub record MergePullRequestRequest : Type 0 where
  pub strategy : String
  pub message : String
  pub delete_branch : Bool

abbrev pub strategy_of : String → String
strategy_of s = if str_eq s "" then "merge" else s

abbrev pub is_strategy : String → Bool
is_strategy s = str_eq s "merge" || str_eq s "squash" || str_eq s "rebase"

-- the different numbers of a list
abbrev pub mem : ℕ → List ℕ → Bool
mem n = any (λ m. m == n)

abbrev pub count_distinct : List ℕ → ℕ
count_distinct [] = 0
count_distinct (n ∷ ns) = let rest = count_distinct ns in if mem n ns then rest else suc rest

abbrev pub is_approval : ℕ → ReviewRow → Bool
is_approval pr r = r.pr_id == pr && str_eq r.kind "approval"

abbrev pub authors : List ReviewRow → List ℕ
authors [] = []
authors (r ∷ rs) = r.author_id ∷ authors rs

-- `SELECT COUNT(DISTINCT author_id) FROM reviews WHERE pr_id = $1 AND type = 'approval'`
abbrev pub approval_count : ℕ → Db → ℕ
approval_count pr db = count_distinct (authors (keep (is_approval pr) db.reviews))

abbrev pub needs_reviews : ℤ → Bool
needs_reviews (pos zero) = false
needs_reviews (pos (suc n)) = true
needs_reviews (negsuc n) = false

-- what a matching rule demands of a merge
unfoldable pub obey : Faults → ℕ → String → Option BranchProtection → Action Db Error (Unit {0})
obey fails pr strategy none = pure tt
obey fails pr strategy (some rule) = do
  let failed = needs_reviews rule.required_reviews && fails 4
  raise_if failed internal
  approvals ← gets (approval_count pr)
  let short = needs_reviews rule.required_reviews && count_below approvals rule.required_reviews
  raise_if short insufficient_reviews
  raise_if (rule.require_linear && str_eq strategy "merge") linear_required

-- any error of `Check` is wrapped
abbrev pub checked :
    Result Protection.Error (Option BranchProtection) → Action Db Error (Option BranchProtection)
checked (ok rule) = pure rule
checked (err e) = raise internal

unfoldable pub protection :
    (String → String → Bool) → Faults → ℕ → String → Action Db Error (Option BranchProtection)
protection collate fails repo branch db =
    checked (Protection.check collate (after 3 fails) repo branch db).0 db

abbrev digit : ℕ → String
digit n =
    if n == 0
    then "0"
    else if n == 1
    then "1"
    else if n == 2
    then "2"
    else if n == 3
    then "3"
    else if n == 4
    then "4"
    else if n == 5
    then "5"
    else if n == 6
    then "6"
    else if n == 7
    then "7"
    else if n == 8
    then "8"
    else "9"

-- `%d`; one unit of fuel for each digit
pub decimal : ℕ → ℕ → String
decimal zero n = ""
decimal (suc fuel) n =
    let rest = String.◌++◌ (decimal fuel (n / 10)) (digit (n % 10)) in
    if ltb n 10 then digit n else rest

unfoldable pub merge_message : String → PullRow → String
unfolding decimal
merge_message given p =
    if str_eq given ""
    then String.◌++◌ "Merge pull request #" (
        String.◌++◌ (decimal (suc p.number) p.number) (
          String.◌++◌ " from "
            (String.◌++◌ p.source_branch (String.◌++◌ " into " p.target_branch))))
    else given

abbrev pub set_merged : ℕ → ℕ → String → PullRow → PullRow
set_merged now merger strategy p = record p {
  status = "merged";
  merge_strategy = some strategy;
  merged_by = some merger;
  merged_at = some now;
  closed_at = some now;
  updated_at = now;
}

-- the last UPDATE and its RETURNING
unfoldable pub record_merge :
    Faults → ℕ → ℕ → ℕ → ℕ → String → PullRow → Action Db Error PullRequest
record_merge fails now repo number merger strategy p = do
  raise_if (fails 5) internal
  modify λ db. record db {
    pull_requests =
        update_where (is_pull repo number) (set_merged now merger strategy) db.pull_requests;
  }
  name ← gets (λ db. username_of (user_of p.author_id db))
  raise_if (fails 6) internal
  pure (record { row = set_merged now merger strategy p; author_name = name; merged_by_name = "" })

-- the checks on the locked row, up to the git merge
unfoldable pub check_pull :
    (String → String → Bool) → Faults → ℕ → String → PullRow → Action Db Error (Unit {0})
check_pull collate fails repo strategy p = do
  raise_if (str_eq p.status "merged") already_merged
  raise_if (not (str_eq p.status "open")) not_open
  rule ← protection collate fails repo p.target_branch
  obey fails p.id strategy rule

-- `Begin` and the SELECT … FOR UPDATE, and these checks
unfoldable pub admit :
    (String → String → Bool) → Faults → ℕ → ℕ → String → Action Db Error PullRequest
admit collate fails repo number strategy = do
  raise_if (fails 1) internal
  raise_if (fails 2) internal
  found ← gets (find_pull repo number)
  pr ← or_raise found not_found
  check_pull collate fails repo strategy pr.row
  pure pr

module _ (g : Git) where
  abbrev pub git_merge :
      String → String → String → String → PullRow → UserRow → Action (World g) Error (Unit {0})
  git_merge owner_name repo_name strategy message p merger w =
      let (merged, disk) =
        g.merge_branches owner_name repo_name p.target_branch p.source_branch strategy message
          merger.username merger.email w.disk in
      (if merged then ok tt else err merge_failed, record w { disk = disk })

  -- the error of the deletion is only logged
  abbrev pub git_delete_branch : Bool → String → String → String → World g → World g
  git_delete_branch false owner_name repo_name branch w = w
  git_delete_branch true owner_name repo_name branch w = record w {
    disk = (g.delete_branch owner_name repo_name branch w.disk).1;
  }

  unfoldable pub merge :
      (String → String → Bool)
      → Faults
      → ℕ
      → ℕ
      → ℕ
      → ℕ
      → String
      → String
      → MergePullRequestRequest
      → Action (World g) Error PullRequest
  merge collate fails now repo number merger_id owner_name repo_name req = do
    let strategy = strategy_of req.strategy
    raise_if (not (is_strategy strategy)) invalid_status
    raise_if (fails 0) internal
    found ← gets (λ w. user_of merger_id w.db)
    merger ← or_raise found internal
    let body : Action (World g) Error PullRequest = do
      pr ← on_db (admit collate fails repo number strategy)
      let message = merge_message req.message pr.row
      git_merge owner_name repo_name strategy message pr.row merger
      on_db (record_merge fails now repo number merger_id strategy pr.row)
    pr ← transaction body
    modify (git_delete_branch req.delete_branch owner_name repo_name pr.row.source_branch)
    pure (record pr { merged_by_name = merger.username })
