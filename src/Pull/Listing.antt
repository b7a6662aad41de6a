-- ===== src/Pull/Listing.antt =====
-- `List` of internal/services/pull/service.go.
use gitwise.Prelude.{
  ℕ, ℤ, String, Bool, true, not, ◌&&◌, Option, none, some, List, [], ◌∷◌, ◌++◌, ◌==◌, if◌then◌else◌,
  str_eq, keep,
}
use gitwise.Action.{Action, Faults, gets, or_raise, raise_if, ◌>>=◌, ◌>>◌}
use gitwise.Db.{Db, PullRow, UserRow}
use gitwise.Page.{Codec, descending, page, next_cursor, read_cursor, clamp_limit}
use gitwise.Pull.{Error, internal, PullRequest, is_valid_pr_status, user_of, username_of}

-- the LEFT JOIN with the merger
abbrev pub merged_by_of : Db → Option ℕ → String
merged_by_of db none = ""
merged_by_of db (some id) = username_of (user_of id db)

-- the join with the author
abbrev pub join_names : Db → PullRow → Option UserRow → List PullRequest
join_names db p none = []
join_names db p (some u) =
    record { row = p; author_name = u.username; merged_by_name = merged_by_of db p.merged_by } ∷ []

pub join_all : Db → List PullRow → List PullRequest
join_all db [] = []
join_all db (p ∷ rest) = join_names db p (user_of p.author_id db) ++ join_all db rest

-- a filter by status is dropped if the status is not a valid one
abbrev pub has_status : String → PullRow → Bool
has_status status p =
    if not (str_eq status "") && is_valid_pr_status status then str_eq p.status status else true

unfoldable pub listed : ℕ → String → Db → List PullRequest
unfolding join_all
listed repo_id status db =
    join_all db (keep (λ p. p.repo_id == repo_id && has_status status p) db.pull_requests)

unfoldable pub list :
    Codec → Faults → ℕ → String → String → ℤ → Action Db Error (List PullRequest × String)
list codec fails repo_id status cursor limit = do
  c ← or_raise (read_cursor codec cursor) internal
  raise_if (fails 0) internal
  gets λ db.
      let p =
        page (λ r. r.row.created_at) (λ r. r.row.id) descending (clamp_limit 30 limit) c
          (listed repo_id status db) in
      (p.0, next_cursor codec p.1)
