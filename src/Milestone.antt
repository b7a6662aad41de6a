-- ===== src/Milestone.antt =====
-- internal/services/milestone/service.go and internal/models/milestone.go: the milestones of a
-- repository.
use gitwise.Prelude.{
  ℕ, String, Bool, false, not, ◌&&◌, ◌||◌, Option, none, some, List, [], ◌∷◌, ◌++◌, ltb, leb, ◌==◌,
  if◌then◌else◌, str_eq, find, any, keep, update_where,
}
use gitwise.Text.{trim_space, byte_len}
use gitwise.Action.{Action, Faults, pure, gets, or_raise, modify, raise_if, ◌>>=◌, ◌>>◌}
use gitwise.Db.{Db, MilestoneRow, IssueRow}
use gitwise.Db.Order.{order_by}
use gitwise.Field.{or_old, is_given, refuses, trimmed}

pub data Error : Type 0 where
  not_found invalid_title duplicate_title invalid_status internal : Error

pub record CreateMilestoneRequest : Type 0 where
  pub title : String
  pub description : String
  pub due_date : Option ℕ

pub record UpdateMilestoneRequest : Type 0 where
  pub title : Option String
  pub description : Option String
  pub due_date : Option ℕ
  pub status : Option String

abbrev pub bad_title : String → Bool
bad_title title = str_eq title "" || ltb 255 (byte_len title)

abbrev pub bad_status : String → Bool
bad_status s = not (str_eq s "open" || str_eq s "closed")

-- `UNIQUE (repo_id, title)`, and the primary key
abbrev pub clashes : MilestoneRow → MilestoneRow → Bool
clashes new m = m.id == new.id || m.repo_id == new.repo_id && str_eq m.title new.title

unfoldable pub create : Faults → ℕ → ℕ → ℕ → CreateMilestoneRequest → Action Db Error MilestoneRow
create fails id now repo_id req = do
  let title = trim_space req.title
  raise_if (bad_title title) invalid_title
  let m : MilestoneRow = record {
    id = id;
    repo_id = repo_id;
    title = title;
    description = req.description;
    due_date = req.due_date;
    status = "open";
    created_at = now;
  }
  raise_if (fails 0) internal
  taken ← gets (λ db. any (clashes m) db.milestones)
  raise_if taken duplicate_title
  modify (λ db. record db { milestones = db.milestones ++ m ∷ [] })
  pure m

unfoldable pub list : Faults → ℕ → Action Db Error (List MilestoneRow)
list fails repo_id = do
  raise_if (fails 0) internal
  gets λ db.
      order_by (λ a b. leb b.created_at a.created_at)
        (keep (λ m. m.repo_id == repo_id) db.milestones)

unfoldable pub get_by_id : Faults → ℕ → Action Db Error MilestoneRow
get_by_id fails id = do
  raise_if (fails 0) internal
  found ← gets (λ db. find (λ m. m.id == id) db.milestones)
  or_raise found not_found

abbrev pub is_milestone : ℕ → ℕ → MilestoneRow → Bool
is_milestone repo_id id m = m.id == id && m.repo_id == repo_id

-- the SET clauses; a due date that is there is written, and none can be taken away
abbrev pub or_kept : Option ℕ → Option ℕ → Option ℕ
or_kept none old = old
or_kept (some d) old = some d

abbrev pub assign : Option String → UpdateMilestoneRequest → MilestoneRow → MilestoneRow
assign title req m = record m {
  title = or_old title m.title;
  description = or_old req.description m.description;
  due_date = or_kept req.due_date m.due_date;
  status = or_old req.status m.status;
}

abbrev pub renames_onto : ℕ → MilestoneRow → MilestoneRow → Bool
renames_onto id new m = not (m.id == id) && m.repo_id == new.repo_id && str_eq m.title new.title

-- the UPDATE and its RETURNING
unfoldable pub write :
    Faults → ℕ → ℕ → Option String → UpdateMilestoneRequest → Action Db Error MilestoneRow
write fails repo_id id title req = do
  raise_if (fails 0) internal
  found ← gets (λ db. find (is_milestone repo_id id) db.milestones)
  m ← or_raise found not_found
  taken ← gets (λ db. any (renames_onto id (assign title req m)) db.milestones)
  raise_if taken duplicate_title
  modify λ db. record db {
    milestones = update_where (is_milestone repo_id id) (assign title req) db.milestones;
  }
  pure (assign title req m)

abbrev pub is_empty_request : UpdateMilestoneRequest → Bool
is_empty_request req =
    not (
      is_given req.title
      || is_given req.description
      || is_given req.due_date
      || is_given req.status)

unfoldable pub update : Faults → ℕ → ℕ → UpdateMilestoneRequest → Action Db Error MilestoneRow
update fails repo_id id req = do
  let title = trimmed req.title
  raise_if (refuses bad_title title) invalid_title
  raise_if (refuses bad_status req.status) invalid_status
  if is_empty_request req then get_by_id fails id else write fails repo_id id title req

abbrev pub refers_to : ℕ → IssueRow → Bool
refers_to id i = elim i.milestone_id [ none ↦ false | some m ↦ m == id ]

abbrev pub unset : IssueRow → IssueRow
unset i = record i { milestone_id = none }

-- Two statements, each on its own. The second also clears the issues of other repositories: the
-- foreign key of migrations/018_issues_milestone_fk.sql is `ON DELETE SET NULL`.
unfoldable pub delete : Faults → ℕ → ℕ → Action Db Error (Unit {0})
delete fails repo_id id = do
  raise_if (fails 0) internal
  modify λ db. record db {
    issues = update_where (λ i. refers_to id i && i.repo_id == repo_id) unset db.issues;
  }
  raise_if (fails 1) internal
  affected ← gets (λ db. any (is_milestone repo_id id) db.milestones)
  raise_if (not affected) not_found
  modify λ db. record db {
    milestones = keep (λ m. not (is_milestone repo_id id m)) db.milestones;
    issues = update_where (refers_to id) unset db.issues;
  }
