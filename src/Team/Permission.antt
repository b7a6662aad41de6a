-- ===== src/Team/Permission.antt =====
-- `GetUserRepoPermission` of internal/services/team/service.go.
use gitwise.Prelude.{
  ℕ, String, Bool, true, false, ◌&&◌, Option, none, some, List, leb, ◌==◌, if◌then◌else◌, str_eq,
  find, any, keep, head?,
}
use gitwise.Action.{Action, Faults, pure, gets, raise_if, ◌>>=◌, ◌>>◌}
use gitwise.Db.{Db, TeamRow, OrgMemberRow, RepoRow, linked}
use gitwise.Db.Order.{order_by}
use gitwise.Team.{Error, internal}

-- the join of `org_members` with the repository, if an organization owns it
abbrev pub joins_repo : ℕ → ℕ → List RepoRow → OrgMemberRow → Bool
joins_repo user_id repo_id repos m =
    m.user_id == user_id
    && any (λ r. r.id == repo_id && r.owner_id == m.org_id && str_eq r.owner_type "org") repos

-- the teams that the second SELECT joins
abbrev pub grants : ℕ → ℕ → Db → TeamRow → Bool
grants user_id repo_id db t =
    linked t.id user_id db.org_team_members && linked t.id repo_id db.org_team_repos

-- the `CASE` of the second SELECT; `none` is NULL
abbrev pub sort_key : String → Option ℕ
sort_key perm =
    if str_eq perm "admin"
    then some 4
    else if str_eq perm "write"
    then some 3
    else if str_eq perm "triage"
    then some 2
    else if str_eq perm "read"
    then some 1
    else none

-- The key of `ORDER BY CASE … END DESC`: descending order has NULL, here `none`, first.
abbrev pub sorts_before : Option ℕ → Option ℕ → Bool
sorts_before none b = true
sorts_before (some a) none = false
sorts_before (some a) (some b) = leb b a

abbrev pub stronger : TeamRow → TeamRow → Bool
stronger a b = sorts_before (sort_key a.permission) (sort_key b.permission)

abbrev pub is_owner_role : Option OrgMemberRow → Bool
is_owner_role none = false
is_owner_role (some m) = str_eq m.role "owner"

-- the row of `LIMIT 1`; no row is the empty permission
abbrev pub best_permission : Option TeamRow → String
best_permission none = ""
best_permission (some t) = t.permission

abbrev pub granting : ℕ → ℕ → Db → List TeamRow
granting user_id repo_id db = keep (grants user_id repo_id db) db.org_teams

-- the role in the organization that owns the repository
abbrev pub org_role : ℕ → ℕ → Db → Option OrgMemberRow
org_role user_id repo_id db = find (joins_repo user_id repo_id db.repositories) db.org_members

unfoldable pub get_user_repo_permission : Faults → ℕ → ℕ → Action Db Error String
get_user_repo_permission fails user_id repo_id = do
  raise_if (fails 0) internal
  role ← gets (org_role user_id repo_id)
  let by_teams = do
    raise_if (fails 1) internal
    best ← gets (λ db. head? (order_by stronger (granting user_id repo_id db)))
    pure (best_permission best)
  if is_owner_role role then pure "admin" else by_teams
