-- ===== src/Review/Summary.antt =====
-- `ListByPR`, `countThreads` and `updateReviewSummary` of internal/services/review/service.go.
use gitwise.Prelude.{
  ℕ, String, Bool, true, false, ◌&&◌, ◌||◌, Option, none, some, List, [], ◌∷◌, ◌++◌, ltb, leb, ◌==◌,
  if◌then◌else◌, str_eq, find, any, keep, update_where, length,
}
use gitwise.Action.{Action, Result, ok, err, Faults, after, gets, modify, raise_if, ◌>>=◌, ◌>>◌}
use gitwise.Db.{Db, ReviewRow, UserRow, InlineComment, CommentsJson, null, array, ReviewSummary}
use gitwise.Db.Order.{order_by}

-- the `Err…` variables, and any error that wraps one of the driver
pub data Error : Type 0 where
  not_found invalid_type self_review thread_not_found internal : Error

-- a review joined with the name of its author
pub record Joined : Type 0 where
  pub review : ReviewRow
  pub username : String

abbrev pub join_user : ReviewRow → Option UserRow → List Joined
join_user r none = []
join_user r (some u) = record { review = r; username = u.username } ∷ []

pub join_users : List UserRow → List ReviewRow → List Joined
join_users users [] = []
join_users users (r ∷ rs) =
    join_user r (find (λ u. u.id == r.author_id) users) ++ join_users users rs

unfoldable pub reviews_of : ℕ → Db → List Joined
unfolding join_users
reviews_of pr db = join_users db.users (keep (λ r. r.pr_id == pr) db.reviews)

unfoldable pub list_by_pr : Faults → ℕ → Action Db Error (List Joined)
list_by_pr fails pr = do
  raise_if (fails 0) internal
  gets (λ db. order_by (λ a b. leb a.review.submitted_at b.review.submitted_at) (reviews_of pr db))

-- the Go map from thread to whether it is resolved
abbrev pub Threads : Type 0
Threads = List (String × Bool)

unfoldable pub lookup : String → Threads → Option Bool
lookup t [] = none
lookup t ((k, v) ∷ m) = if str_eq k t then some v else lookup t m

-- one comment: a new thread starts unresolved, and a resolved comment resolves its thread
unfoldable pub note : InlineComment → Threads → Threads
note c [] = (c.thread_id, c.resolved) ∷ []
note c ((k, v) ∷ m) = if str_eq k c.thread_id then (k, c.resolved || v) ∷ m else (k, v) ∷ note c m

abbrev pub note_named : InlineComment → Threads → Threads
note_named c m = if str_eq c.thread_id "" then m else note c m

unfoldable pub collect : Threads → List InlineComment → Threads
collect m [] = m
collect m (c ∷ cs) = collect (note_named c m) cs

-- `json.Unmarshal` into a slice: `null` gives the nil slice
abbrev pub unmarshal_comments : CommentsJson → List InlineComment
unmarshal_comments null = []
unmarshal_comments (array cs) = cs

pub all_comments : List Joined → List InlineComment
all_comments [] = []
all_comments (r ∷ rs) = unmarshal_comments r.review.comments ++ all_comments rs

abbrev pub count_value : Bool → Threads → ℕ
count_value b m = length (keep (λ e. if b then e.1 else (if e.1 then false else true)) m)

-- the threads that are resolved and that are not, over the comments in order
abbrev pub thread_counts : List InlineComment → ℕ × ℕ
thread_counts cs = let m = collect [] cs in (count_value true m, count_value false m)

abbrev pub counted : Result Error (List Joined) → ℕ × ℕ
counted (err e) = (0, 0)
counted (ok rs) = thread_counts (all_comments rs)

-- an error of the query is logged, and the counts are 0
unfoldable pub count_threads : Faults → ℕ → Db → ℕ × ℕ
unfolding list_by_pr note collect all_comments
count_threads fails pr db = counted (list_by_pr fails pr db).0

-- `ORDER BY r.author_id, r.submitted_at DESC`
abbrev pub by_author : Joined → Joined → Bool
by_author a b =
    ltb a.review.author_id b.review.author_id
    || (a.review.author_id == b.review.author_id && leb b.review.submitted_at a.review.submitted_at)

-- `DISTINCT ON (r.author_id)`: the first row of each author
pub distinct_on : List ℕ → List Joined → List Joined
distinct_on seen [] = []
distinct_on seen (r ∷ rs) =
    let rest = distinct_on (r.review.author_id ∷ seen) rs in
    if any (λ a. a == r.review.author_id) seen then distinct_on seen rs else r ∷ rest

pub names_of : String → List Joined → List String
names_of kind [] = []
names_of kind (r ∷ rs) =
    let rest = names_of kind rs in if str_eq r.review.kind kind then r.username ∷ rest else rest

-- the latest review of each author
unfoldable pub latest : ℕ → Db → List Joined
unfolding distinct_on reviews_of
latest pr db = distinct_on [] (order_by by_author (reviews_of pr db))

abbrev pub is_pr_comment : ℕ → Option ℕ → Bool
is_pr_comment pr none = false
is_pr_comment pr (some id) = id == pr

unfoldable pub summarize : Faults → ℕ → Db → ReviewSummary
unfolding latest names_of count_threads
summarize fails pr db =
    let threads = count_threads fails pr db in
    record {
      approved_by = names_of "approval" (latest pr db);
      changes_requested_by = names_of "changes_requested" (latest pr db);
      reviews_count = length (keep (λ r. r.pr_id == pr) db.reviews);
      comments_count = length (keep (λ c. is_pr_comment pr c.pr_id) db.comments);
      threads_resolved = threads.0;
      threads_unresolved = threads.1;
    }

unfoldable pub update_review_summary : Faults → ℕ → ℕ → Action Db Error (Unit {0})
update_review_summary fails now pr = do
  raise_if (fails 0) internal
  raise_if (fails 1) internal
  raise_if (fails 2) internal
  summary ← gets (summarize (after 3 fails) pr)
  raise_if (fails 4) internal
  modify λ db. record db {
    pull_requests =
        update_where (λ p. p.id == pr)
          (λ p. record p { review_summary = some summary; updated_at = now }) db.pull_requests;
  }
