-- ===== src/Team.antt =====
-- internal/services/team/service.go and the team records of internal/models/org.go: the teams of an
-- organization, their members and repositories, and the permission that they give.
pub mod Update
pub mod Links
pub mod Permission
pub mod Access
pub mod Membership
pub mod Permissions
use gitwise.Prelude.{
  ℕ, ◌+◌, String, Bool, true, false, not, ◌&&◌, ◌||◌, Option, none, some, List, [], ◌∷◌, ◌++◌, map,
  ◌==◌, if◌then◌else◌, str_eq, length, keep, find, any, is_empty,
}
use gitwise.Text.{trim_space, byte_len}
use gitwise.Text.Names.{team_name_re}
use gitwise.Action.{Action, Faults, ok, err, pure, gets, or_raise, modify, raise_if, ◌>>=◌, ◌>>◌}
use gitwise.Db.{Db, TeamRow, TeamLink, OrgMemberRow, is_membership}
use gitwise.Db.Order.{order_by}

-- the `Err…` variables; `internal` is any error that wraps one of the driver
pub data Error : Type 0 where
  not_found duplicate invalid_name invalid_perm member_not_found repo_not_found internal : Error

pub record OrgTeam : Type 0 where
  pub id : ℕ
  pub org_id : ℕ
  pub name : String
  pub description : String
  pub permission : String
  pub member_count : ℕ
  pub repo_count : ℕ
  pub created_at : ℕ
  pub updated_at : ℕ

pub record CreateTeamRequest : Type 0 where
  pub name : String
  pub description : String
  pub permission : String

-- the map `validPermissions`
abbrev pub valid_permission : String → Option ℕ
valid_permission perm =
    if str_eq perm "read"
    then some 1
    else if str_eq perm "triage"
    then some 2
    else if str_eq perm "write"
    then some 3
    else if str_eq perm "admin"
    then some 4
    else none

abbrev pub is_valid_permission : String → Bool
is_valid_permission perm = elim (valid_permission perm) [ none ↦ false | some level ↦ true ]

-- a missing key reads as 0
unfoldable pub permission_level : String → ℕ
permission_level perm = elim (valid_permission perm) [ none ↦ 0 | some level ↦ level ]

unfoldable pub is_org_owner : Faults → ℕ → ℕ → Action Db Error Bool
is_org_owner fails org_id user_id = do
  raise_if (fails 0) internal
  found ← gets (λ db. find (is_membership org_id user_id) db.org_members)
  pure (elim found [ none ↦ false | some m ↦ str_eq m.role "owner" ])

-- the key of `UNIQUE (org_id, name)`
abbrev pub is_named : ℕ → String → TeamRow → Bool
is_named org_id name t = t.org_id == org_id && str_eq t.name name

-- what the unique indexes on `org_teams` refuse
abbrev pub clashes : TeamRow → TeamRow → Bool
clashes new t = t.id == new.id || is_named new.org_id new.name t

abbrev pub default_permission : String → String
default_permission perm = if str_eq perm "" then "read" else perm

abbrev pub created : TeamRow → OrgTeam
created t = record {
  id = t.id;
  org_id = t.org_id;
  name = t.name;
  description = t.description;
  permission = t.permission;
  member_count = 0;
  repo_count = 0;
  created_at = t.created_at;
  updated_at = t.updated_at;
}

unfoldable pub create : Faults → ℕ → ℕ → ℕ → CreateTeamRequest → Action Db Error OrgTeam
create fails new_id now org_id req = do
  let name = trim_space req.name
  raise_if (not (team_name_re name)) invalid_name
  let perm = default_permission (trim_space req.permission)
  raise_if (not (is_valid_permission perm)) invalid_perm
  let team : TeamRow = record {
    id = new_id;
    org_id = org_id;
    name = name;
    description = req.description;
    permission = perm;
    created_at = now;
    updated_at = now;
  }
  raise_if (fails 0) internal
  taken ← gets (λ db. any (clashes team) db.org_teams)
  raise_if taken duplicate
  modify (λ db. record db { org_teams = db.org_teams ++ team ∷ [] })
  pure (created team)

abbrev pub count_links : ℕ → List TeamLink → ℕ
count_links team links = length (keep (λ l. l.team_id == team) links)

-- the columns of the SELECT, with its two counts
abbrev pub selected : Db → TeamRow → OrgTeam
selected db t = record {
  id = t.id;
  org_id = t.org_id;
  name = t.name;
  description = t.description;
  permission = t.permission;
  member_count = count_links t.id db.org_team_members;
  repo_count = count_links t.id db.org_team_repos;
  created_at = t.created_at;
  updated_at = t.updated_at;
}

abbrev pub find_team : ℕ → String → Db → Option OrgTeam
find_team org_id team_name db = elim (find (is_named org_id team_name) db.org_teams) [
  | none ↦ none
  | some t ↦ some (selected db t)
]

unfoldable pub get : Faults → ℕ → String → Action Db Error OrgTeam
get fails org_id team_name = do
  raise_if (fails 0) internal
  found ← gets (find_team org_id team_name)
  or_raise found not_found

-- `collate` is the database's order of texts
unfoldable pub list : (String → String → Bool) → Faults → ℕ → Action Db Error (List OrgTeam)
list collate fails org_id = do
  raise_if (fails 0) internal
  gets λ db.
      map (selected db)
        (order_by (λ a b. collate a.name b.name) (keep (λ t. t.org_id == org_id) db.org_teams))

-- `ON DELETE CASCADE` from `org_teams`
abbrev pub without_team : ℕ → List TeamLink → List TeamLink
without_team team = keep (λ l. not (l.team_id == team))

unfoldable pub delete : Faults → ℕ → String → Action Db Error (Unit {0})
delete fails org_id team_name = do
  raise_if (fails 0) internal
  found ← gets (λ db. find (is_named org_id team_name) db.org_teams)
  t ← or_raise found not_found
  modify λ db. record db {
    org_teams = keep (λ r. not (is_named org_id team_name r)) db.org_teams;
    org_team_members = without_team t.id db.org_team_members;
    org_team_repos = without_team t.id db.org_team_repos;
  }
