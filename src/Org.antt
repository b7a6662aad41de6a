-- ===== src/Org.antt =====
-- internal/services/org/service.go: organizations, their members and the roles of these.
-- `to_lower` is `strings.ToLower`, whose Unicode tables are no part of the program.
pub mod Members
pub mod Owners
pub mod Departure
use gitwise.Prelude.{
  ℕ, String, Bool, true, false, not, ◌&&◌, ◌||◌, Option, none, some, List, [], ◌∷◌, ◌++◌, ltb, ◌==◌,
  if◌then◌else◌, str_eq, find, any, keep, update_where,
}
use gitwise.Text.{trim_space, byte_len}
use gitwise.Text.Names.{org_name_re}
use gitwise.Action.{
  Action, Faults, pure, raise, gets, or_raise, modify, raise_if, transaction, ◌>>=◌, ◌>>◌,
}
use gitwise.Db.{Db, OrgRow, OrgMemberRow, RepoRow, is_membership, delete_repos, delete_org}

-- the `Err…` variables, the error "user not found", and any that wraps one of the driver
pub data Error : Type 0 where
  not_found duplicate invalid_name name_conflict last_owner : Error
  member_not_found invalid_role user_not_found internal : Error

pub record CreateOrgRequest : Type 0 where
  pub name : String
  pub display_name : String
  pub description : String

pub record UpdateOrgRequest : Type 0 where
  pub display_name : Option String
  pub description : Option String
  pub avatar_url : Option String

abbrev pub find_org : String → Db → Option OrgRow
find_org name db = find (λ o. str_eq o.name name) db.organizations

unfoldable pub get_by_name : Faults → String → Action Db Error OrgRow
get_by_name fails name = do
  raise_if (fails 0) internal
  found ← gets (find_org name)
  or_raise found not_found

unfoldable pub create :
    (String → String) → Faults → ℕ → ℕ → ℕ → CreateOrgRequest → Action Db Error OrgRow
create to_lower fails new_id now user_id req = do
  let name = to_lower (trim_space req.name)
  raise_if (not (org_name_re name)) invalid_name
  raise_if (ltb 100 (byte_len req.display_name)) invalid_name
  raise_if (ltb 1000 (byte_len req.description)) invalid_name
  let o : OrgRow = record {
    id = new_id;
    name = name;
    display_name = trim_space req.display_name;
    description = trim_space req.description;
    avatar_url = "";
    created_at = now;
    updated_at = now;
  }
  let body : Action Db Error OrgRow = do
    raise_if (fails 0) internal
    raise_if (fails 1) internal
    username_exists ← gets (λ db. any (λ u. str_eq u.username name) db.users)
    raise_if username_exists name_conflict
    raise_if (fails 2) internal
    taken ← gets (λ db. any (λ r. r.id == new_id || str_eq r.name name) db.organizations)
    raise_if taken duplicate
    modify (λ db. record db { organizations = db.organizations ++ o ∷ [] })
    raise_if (fails 3) internal
    listed ← gets (λ db. any (is_membership new_id user_id) db.org_members)
    raise_if listed internal
    modify λ db. record db {
      org_members =
          db.org_members ++ record { org_id = new_id; user_id = user_id; role = "owner" } ∷ [];
    }
    raise_if (fails 4) internal
    pure o
  transaction body

abbrev pub too_long : ℕ → Option String → Bool
too_long most none = false
too_long most (some s) = ltb most (byte_len s)

abbrev pub or_trimmed : Option String → String → String
or_trimmed none old = old
or_trimmed (some new) old = trim_space new

unfoldable pub update : Faults → ℕ → String → UpdateOrgRequest → Action Db Error OrgRow
update fails now org_name req = do
  raise_if (too_long 100 req.display_name) invalid_name
  raise_if (too_long 1000 req.description) invalid_name
  raise_if (fails 0) internal
  modify λ db. record db {
    organizations =
        update_where (λ o. str_eq o.name org_name)
          (λ o. record o {
            display_name = or_trimmed req.display_name o.display_name;
            description = or_trimmed req.description o.description;
            avatar_url = or_trimmed req.avatar_url o.avatar_url;
            updated_at = now;
          })
          db.organizations;
  }
  found ← gets (find_org org_name)
  or_raise found not_found

-- the repositories of the first DELETE; without such an organization the subquery is NULL
abbrev pub is_org_repo : Option OrgRow → RepoRow → Bool
is_org_repo none r = false
is_org_repo (some o) r = r.owner_id == o.id && str_eq r.owner_type "org"

abbrev pub delete_found : Option OrgRow → Db → Db
delete_found none db = db
delete_found (some o) db = delete_org o.id db

unfoldable pub delete : Faults → String → Action Db Error (Unit {0})
delete fails org_name = do
  raise_if (fails 0) internal
  modify (λ db. delete_repos (is_org_repo (find_org org_name db)) db)
  raise_if (fails 1) internal
  found ← gets (find_org org_name)
  modify (delete_found found)
  _ ← or_raise found not_found
  pure tt

abbrev pub has_member : String → ℕ → (OrgMemberRow → Bool) → Db → Bool
has_member org_name user_id p db =
    any
      (λ m.
        m.user_id == user_id
        && p m
        && any (λ o. o.id == m.org_id && str_eq o.name org_name) db.organizations)
      db.org_members

unfoldable pub is_owner : Faults → String → ℕ → Action Db Error Bool
is_owner fails org_name user_id = do
  raise_if (fails 0) internal
  gets (has_member org_name user_id (λ m. str_eq m.role "owner"))

unfoldable pub is_member : Faults → String → ℕ → Action Db Error Bool
is_member fails org_name user_id = do
  raise_if (fails 0) internal
  gets (has_member org_name user_id (λ m. true))

unfoldable pub name_exists : (String → String) → Faults → String → Action Db Error Bool
name_exists to_lower fails name = do
  raise_if (fails 0) internal
  gets (λ db. any (λ o. str_eq o.name (to_lower name)) db.organizations)
