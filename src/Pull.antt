-- ===== src/Pull.antt =====
-- internal/services/pull/service.go and internal/models/pull_request.go: pull requests. The state is
-- the database and the repositories on disk.
pub mod Requests
pub mod Listing
pub mod Merge
pub mod Merging
pub mod Outcome
pub mod Keys
pub mod Lifecycle
pub mod History
use Prim.Native.String
use gitwise.Prelude.{
  ℕ, zero, suc, ◌+◌, String, Bool, true, false, not, ◌&&◌, ◌||◌, Option, none, some, List, [], ◌∷◌,
  ltb, ◌==◌, if◌then◌else◌, str_eq, find,
}
use gitwise.Action.{
  Action, Result, ok, err, Faults, pure, raise, gets, or_raise, raise_if, ◌>>=◌, ◌>>◌,
}
use gitwise.Db.{Db, PullRow, PrIntent, UserRow}
use gitwise.Git.{Git, DiffResponse}

-- the `Err…` variables; `internal` wraps an error of the driver, of a git comparison or of a cursor
pub data Error : Type 0 where
  not_found invalid_title invalid_status invalid_branch invalid_intent same_branch : Error
  already_merged not_open merge_failed body_too_long : Error
  insufficient_reviews linear_required internal : Error

pub record World (g : Git) : Type 0 where
  pub db : Db
  pub disk : g.Disk

-- `models.PullRequest`: a row with the names of its author and of its merger
pub record PullRequest : Type 0 where
  pub row : PullRow
  pub author_name : String
  pub merged_by_name : String

abbrev pub max_pr_body : ℕ
max_pr_body = 100000

abbrev pub is_valid_pr_status : String → Bool
is_valid_pr_status s = str_eq s "draft" || str_eq s "open" || str_eq s "merged" || str_eq s "closed"

abbrev pub is_valid_intent_type : String → Bool
is_valid_intent_type t =
    str_eq t "feature" || str_eq t "bugfix" || str_eq t "refactor" || str_eq t "chore"

-- whether `marshalIntent` returns `ErrInvalidIntent`; a nil intent is the empty object
abbrev pub bad_intent : Option PrIntent → Bool
bad_intent none = false
bad_intent (some i) = not (is_valid_intent_type i.kind)

abbrev pub user_of : ℕ → Db → Option UserRow
user_of id db = find (λ u. u.id == id) db.users

abbrev pub username_of : Option UserRow → String
username_of none = ""
username_of (some u) = u.username

abbrev pub is_pull : ℕ → ℕ → PullRow → Bool
is_pull repo_id number p = p.repo_id == repo_id && p.number == number

-- the row that joins its author
abbrev pub joined : PullRow → Option UserRow → Option PullRequest
joined p none = none
joined p (some u) = some (record { row = p; author_name = u.username; merged_by_name = "" })

abbrev pub with_author : Db → Option PullRow → Option PullRequest
with_author db none = none
with_author db (some p) = joined p (user_of p.author_id db)

abbrev pub find_pull : ℕ → ℕ → Db → Option PullRequest
find_pull repo_id number db = with_author db (find (is_pull repo_id number) db.pull_requests)

abbrev pub merger_name : Faults → Db → Option ℕ → String
merger_name fails db none = ""
merger_name fails db (some id) = if fails 1 then "" else username_of (user_of id db)

unfoldable pub get_by_number : Faults → ℕ → ℕ → Action Db Error PullRequest
get_by_number fails repo_id number = do
  raise_if (fails 0) internal
  found ← gets (find_pull repo_id number)
  pr ← or_raise found not_found
  gets (λ db. record pr { merged_by_name = merger_name fails db pr.row.merged_by })

-- a statement on the database, in a method that also works on disk
abbrev pub on_db : {g : Git} {A : Type 0} → Action Db Error A → Action (World g) Error A
on_db m w = let (r, db) = m w.db in (r, record w { db = db })

-- The methods on disk and the transaction. An error rolls the database back, and nothing on disk.
abbrev pub transaction :
    {g : Git} {A : Type 0} → Action (World g) Error A → Action (World g) Error A
transaction m w =
    let (r, w') = m w in elim r [ ok a ↦ (ok a, w') | err e ↦ (err e, record w' { db = w.db }) ]

unfoldable pub get_diff :
    (g : Git) → Faults → ℕ → ℕ → String → String → Action (World g) Error DiffResponse
unfolding get_by_number
get_diff g fails repo_id number owner_name repo_name = do
  pr ← on_db (get_by_number fails repo_id number)
  diff ←
      gets λ w.
        g.compare_branches owner_name repo_name pr.row.target_branch pr.row.source_branch w.disk
  or_raise diff internal
