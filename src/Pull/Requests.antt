-- ===== src/Pull/Requests.antt =====
-- `Create` and `Update` of internal/services/pull/service.go.
use gitwise.Prelude.{
  ℕ, ◌+◌, String, Bool, false, not, ◌&&◌, ◌||◌, Option, none, some, List, [], ◌∷◌, ◌++◌, ltb, ◌==◌,
  if◌then◌else◌, str_eq, find, any, update_where,
}
use gitwise.Text.{trim_space, byte_len}
use gitwise.Action.{Action, Faults, pure, gets, or_raise, modify, raise_if, ◌>>=◌, ◌>>◌}
use gitwise.Db.{Db, PullRow, PrIntent, DiffStats, CounterRow}
use gitwise.Git.{Git, DiffResponse, validate_branch_name}
use gitwise.Pull.{
  Error, not_found, invalid_title, invalid_status, invalid_branch, invalid_intent, same_branch,
  body_too_long, internal, World, PullRequest, max_pr_body, bad_intent, user_of, username_of,
  is_pull, on_db,
}

pub record CreatePullRequestRequest : Type 0 where
  pub title : String
  pub body : String
  pub source_branch : String
  pub target_branch : String
  pub draft : Bool
  pub intent : Option PrIntent

pub record UpdatePullRequestRequest : Type 0 where
  pub title : Option String
  pub body : Option String
  pub target_branch : Option String
  pub status : Option String
  pub intent : Option PrIntent

abbrev pub bad_title : String → Bool
bad_title title = str_eq title "" || ltb 500 (byte_len title)

-- The function `next_repo_number` of migrations/001_initial.sql: the number that it returns, and the
-- counters after it.
abbrev pub next_number : ℕ → List CounterRow → ℕ
next_number repo [] = 1
next_number repo (c ∷ cs) = if c.repo_id == repo then c.next_number else next_number repo cs

abbrev pub bump_counter : ℕ → List CounterRow → List CounterRow
bump_counter repo [] = record { repo_id = repo; next_number = 2 } ∷ []
bump_counter repo (c ∷ cs) =
    if c.repo_id == repo
    then record c { next_number = c.next_number + 1 } ∷ cs
    else c ∷ bump_counter repo cs

abbrev pub stats_of : DiffResponse → DiffStats
stats_of d = record {
  files_changed = d.total_files;
  insertions = d.total_additions;
  deletions = d.total_deletions;
  files = d.files;
}

-- the unique indexes of `pull_requests`
abbrev pub clashes : PullRow → PullRow → Bool
clashes new p = p.id == new.id || is_pull new.repo_id new.number p

abbrev pub author_name : Faults → ℕ → Db → String
author_name fails id db = if fails 2 then "" else username_of (user_of id db)

abbrev pub new_pull : ℕ → ℕ → ℕ → ℕ → ℕ → String → CreatePullRequestRequest → DiffResponse → PullRow
new_pull id now repo author number title req diff = record {
  id = id;
  repo_id = repo;
  number = number;
  author_id = author;
  title = title;
  body = req.body;
  body_history = [];
  source_branch = req.source_branch;
  target_branch = req.target_branch;
  status = if req.draft then "draft" else "open";
  intent = req.intent;
  diff_stats = stats_of diff;
  review_summary = none;
  merge_strategy = none;
  merged_by = none;
  merged_at = none;
  closed_at = none;
  created_at = now;
  updated_at = now;
}

-- the statements of `Create`, after its checks
unfoldable pub insert_pull :
    Faults
    → ℕ
    → ℕ
    → ℕ
    → ℕ
    → String
    → CreatePullRequestRequest
    → DiffResponse
    → Action Db Error PullRequest
insert_pull fails id now repo author title req diff = do
  raise_if (fails 0) internal
  number ← gets (λ db. next_number repo db.repo_counters)
  modify (λ db. record db { repo_counters = bump_counter repo db.repo_counters })
  let pr = new_pull id now repo author number title req diff
  raise_if (fails 1) internal
  taken ← gets (λ db. any (clashes pr) db.pull_requests)
  raise_if taken internal
  modify (λ db. record db { pull_requests = db.pull_requests ++ pr ∷ [] })
  name ← gets (author_name fails author)
  pure (record { row = pr; author_name = name; merged_by_name = "" })

module _ (g : Git) where
  unfoldable pub create :
      Faults
      → ℕ
      → ℕ
      → ℕ
      → ℕ
      → String
      → String
      → CreatePullRequestRequest
      → Action (World g) Error PullRequest
  create fails id now repo author owner_name repo_name req = do
    let title = trim_space req.title
    raise_if (bad_title title) invalid_title
    raise_if (ltb max_pr_body (byte_len req.body)) body_too_long
    raise_if (not (validate_branch_name req.source_branch)) invalid_branch
    raise_if (not (validate_branch_name req.target_branch)) invalid_branch
    raise_if (str_eq req.source_branch req.target_branch) same_branch
    source ← gets (λ w. g.resolve_ref owner_name repo_name req.source_branch w.disk)
    raise_if (not source) invalid_branch
    target ← gets (λ w. g.resolve_ref owner_name repo_name req.target_branch w.disk)
    raise_if (not target) invalid_branch
    found ←
        gets
          (λ w. g.compare_branches owner_name repo_name req.target_branch req.source_branch w.disk)
    diff ← or_raise found internal
    raise_if (bad_intent req.intent) invalid_intent
    on_db (insert_pull fails id now repo author title req diff)

abbrev pub or_old {ℓ} : {A : Type ℓ} → Option A → A → A
or_old none old = old
or_old (some new) old = new

abbrev pub trimmed : Option String → Option String
trimmed none = none
trimmed (some s) = some (trim_space s)

abbrev pub bad_title? : Option String → Bool
bad_title? none = false
bad_title? (some title) = bad_title title

abbrev pub long_body : Option String → Bool
long_body none = false
long_body (some body) = ltb max_pr_body (byte_len body)

abbrev pub bad_branch : Option String → Bool
bad_branch none = false
bad_branch (some branch) = not (validate_branch_name branch)

-- the `switch` on the requested status
abbrev pub bad_status : Option String → Bool
bad_status none = false
bad_status (some s) = not (str_eq s "draft" || str_eq s "open" || str_eq s "closed")

abbrev pub closes : Option String → Bool
closes none = false
closes (some s) = str_eq s "closed"

abbrev pub history : ℕ → Option String → PullRow → List (String × ℕ)
history now none p = p.body_history
history now (some body) p = p.body_history ++ (p.body, now) ∷ []

abbrev pub or_kept : Option PrIntent → Option PrIntent → Option PrIntent
or_kept none old = old
or_kept (some new) old = some new

-- the SET clauses; the expressions on their right read the old row
abbrev pub assign : ℕ → UpdatePullRequestRequest → PullRow → PullRow
assign now req p = record p {
  title = or_old (trimmed req.title) p.title;
  body_history = history now req.body p;
  body = or_old req.body p.body;
  target_branch = or_old req.target_branch p.target_branch;
  closed_at = if closes req.status then some now else p.closed_at;
  status = or_old req.status p.status;
  intent = or_kept req.intent p.intent;
  updated_at = now;
}

abbrev pub is_updatable : ℕ → ℕ → PullRow → Bool
is_updatable repo number p = is_pull repo number p && not (str_eq p.status "merged")

unfoldable pub update : Faults → ℕ → ℕ → ℕ → UpdatePullRequestRequest → Action Db Error PullRequest
update fails now repo number req = do
  raise_if (bad_title? (trimmed req.title)) invalid_title
  raise_if (long_body req.body) body_too_long
  raise_if (bad_branch req.target_branch) invalid_branch
  raise_if (bad_status req.status) invalid_status
  raise_if (bad_intent req.intent) invalid_intent
  raise_if (fails 0) internal
  found ← gets (λ db. find (is_updatable repo number) db.pull_requests)
  p ← or_raise found not_found
  modify λ db. record db {
    pull_requests = update_where (is_updatable repo number) (assign now req) db.pull_requests;
  }
  name ← gets (λ db. username_of (user_of p.author_id db))
  pure (record { row = assign now req p; author_name = name; merged_by_name = "" })
