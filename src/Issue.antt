-- ===== src/Issue.antt =====
-- internal/services/issue/service.go and internal/models/issue.go: the issues of a repository.
pub mod Changes
use gitwise.Prelude.{
  ℕ, ℤ, String, Bool, true, false, not, ◌&&◌, ◌||◌, Option, none, some, List, [], ◌∷◌, ◌++◌, ltb,
  ◌==◌, if◌then◌else◌, str_eq, find, any, keep,
}
use gitwise.Text.{trim_space}
use gitwise.Action.{
  Action, Result, ok, err, Faults, pure, raise, gets, or_raise, raise_if, ◌>>=◌, ◌>>◌,
}
use gitwise.Db.{Db, IssueRow, UserRow}
use gitwise.Page.{Codec, descending, page, next_cursor, read_cursor, clamp_limit}

-- the `Err…` variables, and any other error
pub data Error : Type 0 where
  not_found invalid_title invalid_status body_too_long unknown_assignee invalid_cursor internal :
      Error

-- an issue with the name of its author
pub record Issue : Type 0 where
  pub row : IssueRow
  pub author_name : String

abbrev pub max_issue_body : ℕ
max_issue_body = 100_000

abbrev pub is_valid_issue_status : String → Bool
is_valid_issue_status s = str_eq s "open" || str_eq s "closed" || str_eq s "duplicate"

abbrev pub is_valid_priority : String → Bool
is_valid_priority p =
    str_eq p "critical" || str_eq p "high" || str_eq p "medium" || str_eq p "low" || str_eq p "none"

abbrev pub username_of : Option UserRow → String
username_of none = ""
username_of (some u) = u.username

abbrev pub is_issue : ℕ → ℕ → IssueRow → Bool
is_issue repo_id number i = i.repo_id == repo_id && i.number == number

-- the join with the author
abbrev pub join_author : IssueRow → Option UserRow → List Issue
join_author i none = []
join_author i (some u) = record { row = i; author_name = u.username } ∷ []

pub join_authors : List UserRow → List IssueRow → List Issue
join_authors users [] = []
join_authors users (i ∷ rest) =
    join_author i (find (λ u. u.id == i.author_id) users) ++ join_authors users rest

abbrev pub first : List Issue → Option Issue
first [] = none
first (i ∷ rest) = some i

unfoldable pub get_by_number : Faults → ℕ → ℕ → Action Db Error Issue
unfolding join_authors
get_by_number fails repo_id number = do
  raise_if (fails 0) internal
  found ← gets (λ db. first (join_authors db.users (keep (is_issue repo_id number) db.issues)))
  or_raise found not_found

-- a filter by status is dropped if the status is not a valid one
abbrev pub has_status : String → Issue → Bool
has_status status i =
    if not (str_eq status "") && is_valid_issue_status status
    then str_eq i.row.status status
    else true

unfoldable pub listed : ℕ → String → Db → List Issue
unfolding join_authors
listed repo_id status db =
    keep (has_status status) (join_authors db.users (keep (λ i. i.repo_id == repo_id) db.issues))

unfoldable pub list :
    Codec → Faults → ℕ → String → String → ℤ → Action Db Error (List Issue × String)
list codec fails repo_id status cursor limit = do
  c ← or_raise (read_cursor codec cursor) invalid_cursor
  raise_if (fails 0) internal
  gets λ db.
      let p =
        page (λ i. i.row.created_at) (λ i. i.row.id) descending (clamp_limit 30 limit) c
          (listed repo_id status db) in
      (p.0, next_cursor codec p.1)

-- the names of a request without blanks and repetitions, in the order of their first occurrence
abbrev pub clean_from : List String → List String → List String
clean_from seen [] = []
clean_from seen (u ∷ us) =
    let name = trim_space u in
    let rest = clean_from seen us in
    let with_name = clean_from (name ∷ seen) us in
    if str_eq name "" || any (λ s. str_eq s name) seen then rest else name ∷ with_name

pub find_all : List UserRow → List String → Option (List ℕ)
find_all users [] = some []
find_all users (name ∷ names) =
    let rest = find_all users names in
    elim (find (λ u. str_eq u.username name) users) [
      | none ↦ none
      | some u ↦ elim rest [ none ↦ none | some ids ↦ some (u.id ∷ ids) ]
    ]

abbrev pub or_unknown : Option (List ℕ) → Action Db Error (List ℕ)
or_unknown none = raise unknown_assignee
or_unknown (some ids) = pure ids

-- one statement for all names, unless there are none
abbrev pub resolve_names : Faults → List String → Action Db Error (List ℕ)
resolve_names fails [] = pure []
resolve_names fails (name ∷ names) = do
  raise_if (fails 0) internal
  ids ← gets (λ db. find_all db.users (name ∷ names))
  or_unknown ids

unfoldable pub resolve_assignees : Faults → List String → Action Db Error (List ℕ)
resolve_assignees fails usernames = resolve_names fails (clean_from [] usernames)
