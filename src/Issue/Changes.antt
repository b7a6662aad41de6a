-- ===== src/Issue/Changes.antt =====
-- `Create` and `Update` of internal/services/issue/service.go.
use gitwise.Prelude.{
  ℕ, String, Bool, false, not, ◌||◌, Option, none, some, List, [], ◌∷◌, ◌++◌, ltb, ◌==◌,
  if◌then◌else◌, str_eq, find, any, update_where,
}
use gitwise.Text.{trim_space, byte_len}
use gitwise.Action.{Action, Faults, after, pure, gets, or_raise, modify, raise_if, ◌>>=◌, ◌>>◌}
use gitwise.Db.{Db, IssueRow, MilestoneRow}
use gitwise.Field.{or_old, refuses, trimmed}
use gitwise.Pull.Requests.{next_number, bump_counter}
use gitwise.Issue.{
  Error, not_found, invalid_title, invalid_status, body_too_long, internal, Issue, max_issue_body,
  is_valid_issue_status, is_valid_priority, username_of, is_issue, resolve_assignees,
}

pub record CreateIssueRequest : Type 0 where
  pub title : String
  pub body : String
  pub labels : List String
  pub priority : String
  pub assignees : List String
  pub milestone_id : Option ℕ

pub record UpdateIssueRequest : Type 0 where
  pub title : Option String
  pub body : Option String
  pub status : Option String
  pub labels : Option (List String)
  pub priority : Option String
  pub assignees : Option (List String)
  pub milestone_id : Option ℕ

abbrev pub bad_title : String → Bool
bad_title title = str_eq title "" || ltb 500 (byte_len title)

abbrev pub long_body : String → Bool
long_body body = ltb max_issue_body (byte_len body)

abbrev pub default_priority : String → String
default_priority p = if str_eq p "" then "none" else p

abbrev pub new_issue : ℕ → ℕ → ℕ → ℕ → ℕ → String → List ℕ → CreateIssueRequest → IssueRow
new_issue id now repo_id author_id number title assignees req = record {
  id = id;
  repo_id = repo_id;
  number = number;
  author_id = author_id;
  title = title;
  body = req.body;
  body_history = [];
  status = "open";
  labels = req.labels;
  assignees = assignees;
  milestone_id = req.milestone_id;
  linked_prs = [];
  priority = default_priority req.priority;
  closed_at = none;
  created_at = now;
  updated_at = now;
}

-- the unique keys of `issues`
abbrev pub clashes : IssueRow → IssueRow → Bool
clashes new i = i.id == new.id || is_issue new.repo_id new.number i

-- what the foreign key of migrations/018_issues_milestone_fk.sql refuses
abbrev pub dangles : List MilestoneRow → Option ℕ → Bool
dangles milestones none = false
dangles milestones (some id) = not (any (λ m. m.id == id) milestones)

-- the statements from `next_repo_number` on
unfoldable pub insert_issue :
    Faults → ℕ → ℕ → ℕ → ℕ → String → CreateIssueRequest → List ℕ → Action Db Error Issue
insert_issue fails id now repo_id author_id title req assignees = do
  raise_if (fails 0) internal
  number ← gets (λ db. next_number repo_id db.repo_counters)
  modify (λ db. record db { repo_counters = bump_counter repo_id db.repo_counters })
  let issue = new_issue id now repo_id author_id number title assignees req
  raise_if (fails 1) internal
  refused ← gets (λ db. any (clashes issue) db.issues || dangles db.milestones req.milestone_id)
  raise_if refused internal
  modify (λ db. record db { issues = db.issues ++ issue ∷ [] })
  name ← gets (λ db. if fails 2 then "" else username_of (find (λ u. u.id == author_id) db.users))
  pure (record { row = issue; author_name = name })

unfoldable pub create : Faults → ℕ → ℕ → ℕ → ℕ → CreateIssueRequest → Action Db Error Issue
create fails id now repo_id author_id req = do
  let title = trim_space req.title
  raise_if (bad_title title) invalid_title
  raise_if (long_body req.body) body_too_long
  raise_if (not (is_valid_priority (default_priority req.priority))) invalid_status
  assignees ← resolve_assignees fails req.assignees
  insert_issue (after 1 fails) id now repo_id author_id title req assignees

-- the old body goes into the history with the time of the change
abbrev pub history : ℕ → Option String → IssueRow → List (String × ℕ)
history now none i = i.body_history
history now (some b) i = i.body_history ++ (i.body, now) ∷ []

-- "closed" and "duplicate" set the time, "open" clears it
abbrev pub closes : ℕ → Option String → Option ℕ → Option ℕ
closes now none old = old
closes now (some s) old =
    if str_eq s "closed" || str_eq s "duplicate"
    then some now
    else if str_eq s "open"
    then none
    else old

abbrev pub or_kept : Option ℕ → Option ℕ → Option ℕ
or_kept none old = old
or_kept (some id) old = some id

-- the SET clauses
abbrev pub assign : ℕ → Option String → Option (List ℕ) → UpdateIssueRequest → IssueRow → IssueRow
assign now title assignees req i = record i {
  title = or_old title i.title;
  body = or_old req.body i.body;
  body_history = history now req.body i;
  status = or_old req.status i.status;
  closed_at = closes now req.status i.closed_at;
  labels = or_old req.labels i.labels;
  priority = or_old req.priority i.priority;
  assignees = or_old assignees i.assignees;
  milestone_id = or_kept req.milestone_id i.milestone_id;
  updated_at = now;
}

abbrev pub resolve_given : Faults → Option (List String) → Action Db Error (Option (List ℕ))
resolve_given fails none = pure none
resolve_given fails (some names) = do ids ← resolve_assignees fails names; pure (some ids)

-- the UPDATE and its RETURNING
unfoldable pub write :
    Faults
    → ℕ
    → ℕ
    → ℕ
    → Option String
    → UpdateIssueRequest
    → Option (List ℕ)
    → Action Db Error Issue
write fails now repo_id number title req assignees = do
  raise_if (fails 0) internal
  found ← gets (λ db. find (is_issue repo_id number) db.issues)
  i ← or_raise found not_found
  refused ← gets (λ db. dangles db.milestones req.milestone_id)
  raise_if refused internal
  modify λ db. record db {
    issues = update_where (is_issue repo_id number) (assign now title assignees req) db.issues;
  }
  name ← gets (λ db. username_of (find (λ u. u.id == i.author_id) db.users))
  pure (record { row = assign now title assignees req i; author_name = name })

unfoldable pub update : Faults → ℕ → ℕ → ℕ → UpdateIssueRequest → Action Db Error Issue
update fails now repo_id number req = do
  let title = trimmed req.title
  raise_if (refuses bad_title title) invalid_title
  raise_if (refuses long_body req.body) body_too_long
  raise_if (refuses (λ s. not (is_valid_issue_status s)) req.status) invalid_status
  raise_if (refuses (λ p. not (is_valid_priority p)) req.priority) invalid_status
  assignees ← resolve_given fails req.assignees
  write (after 1 fails) now repo_id number title req assignees
