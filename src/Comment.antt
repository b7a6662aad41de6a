-- ===== src/Comment.antt =====
-- internal/services/comment/service.go and internal/models/comment.go: comments on issues and on pull
-- requests.
pub mod Walk
use gitwise.Prelude.{
  ℕ, ℤ, String, Bool, true, false, not, ◌&&◌, Option, none, some, List, [], ◌∷◌, ◌++◌, ltb, ◌==◌,
  if◌then◌else◌, str_eq, find, any, keep, update_where,
}
use gitwise.Text.{trim_space, byte_len}
use gitwise.Action.{Action, Faults, pure, gets, or_raise, modify, raise_if, ◌>>=◌, ◌>>◌}
use gitwise.Db.{Db, CommentRow, UserRow}
use gitwise.Page.{Codec, ascending, page, next_cursor, read_cursor, clamp_limit}

pub data Error : Type 0 where
  not_found empty_body body_too_long forbidden invalid_cursor internal : Error

pub record Comment : Type 0 where
  pub row : CommentRow
  pub author_name : String

abbrev pub max_comment_body : ℕ
max_comment_body = 100_000

abbrev pub username_of : Option UserRow → String
username_of none = ""
username_of (some u) = u.username

-- `CHECK (issue_id IS NOT NULL OR pr_id IS NOT NULL)`
abbrev pub has_target : Option ℕ → Option ℕ → Bool
has_target none none = false
has_target none (some pr) = true
has_target (some issue) pr = true

unfoldable pub create :
    Faults → ℕ → ℕ → ℕ → Option ℕ → Option ℕ → ℕ → String → Action Db Error Comment
create fails id now repo_id issue_id pr_id author_id given = do
  let body = trim_space given
  raise_if (str_eq body "") empty_body
  raise_if (ltb max_comment_body (byte_len body)) body_too_long
  let comment : CommentRow = record {
    id = id;
    repo_id = repo_id;
    issue_id = issue_id;
    pr_id = pr_id;
    author_id = author_id;
    body = body;
    body_history = [];
    created_at = now;
    updated_at = now;
  }
  raise_if (fails 0) internal
  raise_if (not (has_target issue_id pr_id)) internal
  taken ← gets (λ db. any (λ c. c.id == id) db.comments)
  raise_if taken internal
  modify (λ db. record db { comments = db.comments ++ comment ∷ [] })
  name ← gets (λ db. if fails 1 then "" else username_of (find (λ u. u.id == author_id) db.users))
  pure (record { row = comment; author_name = name })

-- the column that `ListByIssue` and `ListByPR` give to `list`
pub data Target : Type 0 where
  on_issue on_pull : ℕ → Target

abbrev pub is_number : ℕ → Option ℕ → Bool
is_number id none = false
is_number id (some n) = n == id

abbrev pub is_on : Target → CommentRow → Bool
is_on (on_issue id) c = is_number id c.issue_id
is_on (on_pull id) c = is_number id c.pr_id

abbrev pub join_author : CommentRow → Option UserRow → List Comment
join_author c none = []
join_author c (some u) = record { row = c; author_name = u.username } ∷ []

pub join_authors : List UserRow → List CommentRow → List Comment
join_authors users [] = []
join_authors users (c ∷ rest) =
    join_author c (find (λ u. u.id == c.author_id) users) ++ join_authors users rest

unfoldable pub listed : Target → Db → List Comment
unfolding join_authors
listed target db = join_authors db.users (keep (is_on target) db.comments)

abbrev pub created_at : Comment → ℕ
created_at c = c.row.created_at

abbrev pub comment_id : Comment → ℕ
comment_id c = c.row.id

unfoldable pub list : Codec → Faults → Target → String → ℤ → Action Db Error (List Comment × String)
list codec fails target cursor limit = do
  c ← or_raise (read_cursor codec cursor) invalid_cursor
  raise_if (fails 0) internal
  gets λ db.
      let p = page created_at comment_id ascending (clamp_limit 50 limit) c (listed target db) in
      (p.0, next_cursor codec p.1)

abbrev pub is_own : ℕ → ℕ → CommentRow → Bool
is_own id author_id c = c.id == id && c.author_id == author_id

abbrev pub edited : ℕ → String → CommentRow → CommentRow
edited now body c = record c {
  body = body;
  body_history = c.body_history ++ (c.body, now) ∷ [];
  updated_at = now;
}

unfoldable pub update : Faults → ℕ → ℕ → ℕ → String → Action Db Error Comment
update fails now id author_id given = do
  let body = trim_space given
  raise_if (str_eq body "") empty_body
  raise_if (ltb max_comment_body (byte_len body)) body_too_long
  raise_if (fails 0) internal
  found ← gets (λ db. find (is_own id author_id) db.comments)
  c ← or_raise found not_found
  modify λ db. record db {
    comments = update_where (is_own id author_id) (edited now body) db.comments;
  }
  name ← gets (λ db. username_of (find (λ u. u.id == c.author_id) db.users))
  pure (record { row = edited now body c; author_name = name })

unfoldable pub delete : Faults → ℕ → ℕ → Action Db Error (Unit {0})
delete fails id author_id = do
  raise_if (fails 0) internal
  found ← gets (λ db. find (λ c. c.id == id) db.comments)
  c ← or_raise found not_found
  raise_if (not (c.author_id == author_id)) forbidden
  raise_if (fails 1) internal
  modify (λ db. record db { comments = keep (λ r. not (r.id == id)) db.comments })
