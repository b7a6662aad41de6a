-- ===== src/Review.antt =====
-- internal/services/review/service.go and internal/models/review.go: the reviews of a pull request,
-- their threads, and the summary that is stored on the pull request.
pub mod Summary
pub mod Threads
pub mod Resolve
pub mod History
use gitwise.Prelude.{
  ℕ, ◌+◌, String, Bool, true, false, not, ◌&&◌, ◌||◌, Option, none, some, List, [], ◌∷◌, ◌++◌, map,
  ltb, leb, ◌==◌, if◌then◌else◌, str_eq, find, any, keep, update_where, length,
}
use gitwise.Action.{
  Action, Result, ok, err, Faults, after, pure, raise, gets, or_raise, modify, raise_if, ◌>>=◌,
  ◌>>◌,
}
use gitwise.Db.{Db, PullRow, ReviewRow, UserRow, InlineComment, CommentsJson, null, array}
use gitwise.Db.Order.{order_by}
use gitwise.Review.Summary.{Error, not_found, internal, update_review_summary}

pub record CreateReviewRequest : Type 0 where
  pub kind : String
  pub body : String
  -- `none` is the nil slice, which a request that leaves the field out gives
  pub comments : Option (List InlineComment)

pub record Review : Type 0 where
  pub row : ReviewRow
  pub author_name : String

abbrev pub is_valid_review_type : String → Bool
is_valid_review_type t = str_eq t "approval" || str_eq t "changes_requested" || str_eq t "comment"

-- `json.Marshal` of a slice
abbrev pub marshal_comments : Option (List InlineComment) → CommentsJson
marshal_comments none = null
marshal_comments (some cs) = array cs

abbrev pub author_name : Faults → Option UserRow → String
author_name fails none = ""
author_name fails (some u) = if fails 2 then "" else u.username

unfoldable pub create :
    Faults → ℕ → ℕ → ℕ → ℕ → CreateReviewRequest → Action Db Summary.Error Review
create fails new_id now pr_id author_id req = do
  raise_if (not (is_valid_review_type req.kind)) Summary.invalid_type
  raise_if (fails 0) internal
  found ← gets (λ db. find (λ p. p.id == pr_id) db.pull_requests)
  pr ← or_raise found not_found
  raise_if (pr.author_id == author_id) Summary.self_review
  let review : ReviewRow = record {
    id = new_id;
    pr_id = pr_id;
    author_id = author_id;
    kind = req.kind;
    body = req.body;
    comments = marshal_comments req.comments;
    submitted_at = now;
  }
  raise_if (fails 1) internal
  taken ← gets (λ db. any (λ r. r.id == new_id) db.reviews)
  raise_if taken internal
  modify (λ db. record db { reviews = db.reviews ++ review ∷ [] })
  name ← gets (λ db. author_name fails (find (λ u. u.id == author_id) db.users))
  update_review_summary (after 3 fails) now pr_id
  pure (record { row = review; author_name = name })

abbrev pub in_thread : String → InlineComment → Bool
in_thread thread c = str_eq c.thread_id thread

-- `EXISTS` over the elements; the caller has dealt with `null`
abbrev pub has_thread : String → CommentsJson → Bool
has_thread thread null = false
has_thread thread (array cs) = any (in_thread thread) cs

abbrev pub is_null : CommentsJson → Bool
is_null null = true
is_null (array cs) = false

abbrev pub set_resolved : Bool → InlineComment → InlineComment
set_resolved flag c = record c { resolved = flag }

abbrev pub resolve_in : String → Bool → CommentsJson → CommentsJson
resolve_in thread flag null = null
resolve_in thread flag (array cs) = array (update_where (in_thread thread) (set_resolved flag) cs)

abbrev pub is_affected : ℕ → String → ReviewRow → Bool
is_affected pr thread r = r.pr_id == pr && has_thread thread r.comments

-- `jsonb_array_elements` raises an error on the JSON `null` of a review of the pull request
unfoldable pub resolve_thread : Faults → ℕ → ℕ → String → Bool → Action Db Summary.Error (Unit {0})
resolve_thread fails now pr_id thread flag = do
  raise_if (fails 0) internal
  scalar ← gets (λ db. any (λ r. r.pr_id == pr_id && is_null r.comments) db.reviews)
  raise_if scalar internal
  affected ← gets (λ db. any (is_affected pr_id thread) db.reviews)
  raise_if (not affected) Summary.thread_not_found
  modify λ db. record db {
    reviews =
        update_where (is_affected pr_id thread)
          (λ r. record r { comments = resolve_in thread flag r.comments }) db.reviews;
  }
  update_review_summary (after 1 fails) now pr_id
