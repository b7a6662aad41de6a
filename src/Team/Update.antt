-- ===== src/Team/Update.antt =====
-- `Update` of internal/services/team/service.go.
use gitwise.Prelude.{
  ℕ, String, Bool, false, not, ◌&&◌, ◌||◌, Option, none, some, ltb, ◌==◌, str_eq, find, any,
  update_where,
}
use gitwise.Text.{trim_space, byte_len}
use gitwise.Action.{Action, Faults, pure, gets, or_raise, modify, raise_if, ◌>>=◌, ◌>>◌}
use gitwise.Db.{Db, TeamRow}
use gitwise.Team.{
  Error, duplicate, invalid_name, invalid_perm, internal, OrgTeam, is_valid_permission, is_named,
  get,
}

-- a field that the request leaves out is a nil pointer
pub record UpdateTeamRequest : Type 0 where
  pub name : Option String
  pub description : Option String
  pub permission : Option String

abbrev pub or_old : Option String → String → String
or_old none old = old
or_old (some new) old = new

abbrev pub trimmed : Option String → Option String
trimmed none = none
trimmed (some s) = some (trim_space s)

abbrev pub bad_name : Option String → Bool
bad_name none = false
bad_name (some name) = str_eq name "" || ltb 100 (byte_len name)

abbrev pub bad_permission : Option String → Bool
bad_permission none = false
bad_permission (some perm) = not (is_valid_permission perm)

-- the SET clauses
abbrev pub assign : ℕ → Option String → Option String → Option String → TeamRow → TeamRow
assign now name description perm t = record t {
  name = or_old name t.name;
  description = or_old description t.description;
  permission = or_old perm t.permission;
  updated_at = now;
}

-- the new name of a row is taken by another row of its organization
abbrev pub renames_onto : Option String → ℕ → ℕ → TeamRow → Bool
renames_onto none id org_id t = false
renames_onto (some name) id org_id t = not (t.id == id) && is_named org_id name t

-- the counts are those that `Get` read
abbrev pub updated : OrgTeam → TeamRow → OrgTeam
updated existing t = record {
  id = t.id;
  org_id = t.org_id;
  name = t.name;
  description = t.description;
  permission = t.permission;
  member_count = existing.member_count;
  repo_count = existing.repo_count;
  created_at = t.created_at;
  updated_at = t.updated_at;
}

unfoldable pub update : Faults → ℕ → ℕ → String → UpdateTeamRequest → Action Db Error OrgTeam
unfolding get
update fails now org_id team_name req = do
  existing ← get fails org_id team_name
  let name = trimmed req.name
  raise_if (bad_name name) invalid_name
  let perm = trimmed req.permission
  raise_if (bad_permission perm) invalid_perm
  raise_if (fails 1) internal
  taken ← gets (λ db. any (renames_onto name existing.id existing.org_id) db.org_teams)
  raise_if taken duplicate
  modify λ db. record db {
    org_teams =
        update_where (λ t. t.id == existing.id) (assign now name req.description perm) db.org_teams;
  }
  row ← gets (λ db. find (λ t. t.id == existing.id) db.org_teams)
  t ← or_raise row internal
  pure (updated existing t)
