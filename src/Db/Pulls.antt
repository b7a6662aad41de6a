-- ===== src/Db/Pulls.antt =====
-- The rows of the tables of pull requests: branch protection rules, pull requests, reviews. A JSON
-- column holds the value that the services marshal into it.
use gitwise.Prelude.{ℕ, ℤ, String, Bool, Option, List}

-- `models.BranchProtection`, which has the columns of its table
pub record BranchProtection : Type 0 where
  pub id : ℕ
  pub repo_id : ℕ
  pub branch_pattern : String
  pub required_reviews : ℤ
  pub require_linear : Bool
  pub created_at : ℕ
  pub updated_at : ℕ

-- `models.PRIntent`
pub record PrIntent : Type 0 where
  pub kind : String
  pub scope : String
  pub components : List String

pub record FileStat : Type 0 where
  pub path : String
  pub status : String
  pub insertions : ℕ
  pub deletions : ℕ

-- the JSON object that `pull.Service.Create` stores in `diff_stats`
pub record DiffStats : Type 0 where
  pub files_changed : ℕ
  pub insertions : ℕ
  pub deletions : ℕ
  pub files : List FileStat

-- the JSON object that `updateReviewSummary` stores in `review_summary`
pub record ReviewSummary : Type 0 where
  pub approved_by : List String
  pub changes_requested_by : List String
  pub reviews_count : ℕ
  pub comments_count : ℕ
  pub threads_resolved : ℕ
  pub threads_unresolved : ℕ

-- a row of `pull_requests`; `none` in `intent` and `review_summary` is the empty object
pub record PullRow : Type 0 where
  pub id : ℕ
  pub repo_id : ℕ
  pub number : ℕ
  pub author_id : ℕ
  pub title : String
  pub body : String
  pub body_history : List (String × ℕ)
  pub source_branch : String
  pub target_branch : String
  pub status : String
  pub intent : Option PrIntent
  pub diff_stats : DiffStats
  pub review_summary : Option ReviewSummary
  pub merge_strategy : Option String
  pub merged_by : Option ℕ
  pub merged_at : Option ℕ
  pub closed_at : Option ℕ
  pub created_at : ℕ
  pub updated_at : ℕ

-- `models.InlineCommentInput`
pub record InlineComment : Type 0 where
  pub path : String
  pub line : ℤ
  pub side : String
  pub body : String
  pub thread_id : String
  pub resolved : Bool

-- The column `reviews.comments`. A nil slice is marshalled as the JSON `null`, not as `[]`.
pub data CommentsJson : Type 0 where
  null : CommentsJson
  array : List InlineComment → CommentsJson

pub record ReviewRow : Type 0 where
  pub id : ℕ
  pub pr_id : ℕ
  pub author_id : ℕ
  pub kind : String
  pub body : String
  pub comments : CommentsJson
  pub submitted_at : ℕ

-- a row of `repo_counters`, which `next_repo_number` reads and writes
pub record CounterRow : Type 0 where
  pub repo_id : ℕ
  pub next_number : ℕ
