-- ===== src/Db/Tracker.antt =====
-- The rows of the tables of the issue tracker: issues, labels, milestones, comments.
use gitwise.Prelude.{ℕ, String, Option, List}

pub record IssueRow : Type 0 where
  pub id : ℕ
  pub repo_id : ℕ
  pub number : ℕ
  pub author_id : ℕ
  pub title : String
  pub body : String
  pub body_history : List (String × ℕ)
  pub status : String
  pub labels : List String
  pub assignees : List ℕ
  pub milestone_id : Option ℕ
  pub linked_prs : List ℕ
  pub priority : String
  pub closed_at : Option ℕ
  pub created_at : ℕ
  pub updated_at : ℕ

pub record LabelRow : Type 0 where
  pub id : ℕ
  pub repo_id : ℕ
  pub name : String
  pub color : String
  pub description : String

pub record MilestoneRow : Type 0 where
  pub id : ℕ
  pub repo_id : ℕ
  pub title : String
  pub description : String
  pub due_date : Option ℕ
  pub status : String
  pub created_at : ℕ

pub record CommentRow : Type 0 where
  pub id : ℕ
  pub repo_id : ℕ
  pub issue_id : Option ℕ
  pub pr_id : Option ℕ
  pub author_id : ℕ
  pub body : String
  pub body_history : List (String × ℕ)
  pub created_at : ℕ
  pub updated_at : ℕ
