-- ===== src/Org/Members.antt =====
-- The members of an organization (internal/services/org/service.go).
use gitwise.Prelude.{
  ℕ, String, Bool, not, ◌&&◌, ◌||◌, Option, List, [], ◌∷◌, ◌++◌, leb, ◌==◌, if◌then◌else◌, str_eq,
  find, any, keep, update_where, length,
}
use gitwise.Text.{trim_space}
use gitwise.Action.{Action, Faults, gets, or_raise, modify, raise_if, ◌>>=◌, ◌>>◌}
use gitwise.Db.{Db, UserRow, OrgMemberRow, is_membership}
use gitwise.Org.{
  Error, last_owner, member_not_found, invalid_role, user_not_found, internal, get_by_name,
}

abbrev pub is_owner_of : ℕ → OrgMemberRow → Bool
is_owner_of org m = m.org_id == org && str_eq m.role "owner"

-- `SELECT COUNT(*) … AND role = 'owner'`
abbrev pub owner_count : ℕ → List OrgMemberRow → ℕ
owner_count org members = length (keep (is_owner_of org) members)

abbrev pub set_role : String → OrgMemberRow → OrgMemberRow
set_role role m = record m { role = role }

-- `INSERT … ON CONFLICT (org_id, user_id) DO UPDATE SET role = $3`
abbrev pub upsert_member : ℕ → ℕ → String → List OrgMemberRow → List OrgMemberRow
upsert_member org user role members =
    if any (is_membership org user) members
    then update_where (is_membership org user) (set_role role) members
    else members ++ record { org_id = org; user_id = user; role = role } ∷ []

abbrev pub find_user : String → Db → Option UserRow
find_user username db = find (λ u. str_eq u.username username) db.users

abbrev pub find_membership : ℕ → ℕ → Db → Option OrgMemberRow
find_membership org user db = find (is_membership org user) db.org_members

abbrev pub is_role : String → Bool
is_role role = str_eq role "owner" || str_eq role "member"

module _ (to_lower : String → String) where
  unfoldable pub add_member : Faults → String → String → String → Action Db Error (Unit {0})
  unfolding get_by_name
  add_member fails org_name username given = do
    let role = to_lower (trim_space given)
    raise_if (not (is_role role)) invalid_role
    o ← get_by_name fails org_name
    raise_if (fails 1) internal
    found ← gets (find_user (to_lower username))
    user ← or_raise found user_not_found
    raise_if (fails 2) internal
    modify (λ db. record db { org_members = upsert_member o.id user.id role db.org_members })

  -- the check that a change leaves an owner; `lost` tells whether the change takes one away
  abbrev pub keep_an_owner : Faults → ℕ → Bool → Action Db Error (Unit {0})
  keep_an_owner fails org lost = do
    let failed = lost && fails 3
    raise_if failed internal
    owners ← gets (λ db. owner_count org db.org_members)
    let last = lost && leb owners 1
    raise_if last last_owner

  unfoldable pub remove_member : Faults → String → String → Action Db Error (Unit {0})
  unfolding get_by_name
  remove_member fails org_name username = do
    o ← get_by_name fails org_name
    raise_if (fails 1) internal
    found ← gets (find_user (to_lower username))
    user ← or_raise found user_not_found
    raise_if (fails 2) internal
    row ← gets (find_membership o.id user.id)
    m ← or_raise row member_not_found
    keep_an_owner fails o.id (str_eq m.role "owner")
    raise_if (fails 4) internal
    affected ← gets (λ db. any (is_membership o.id user.id) db.org_members)
    modify λ db. record db {
      org_members = keep (λ r. not (is_membership o.id user.id r)) db.org_members;
    }
    raise_if (not affected) member_not_found

  unfoldable pub update_member_role : Faults → String → String → String → Action Db Error (Unit {0})
  unfolding get_by_name
  update_member_role fails org_name username given = do
    let role = to_lower (trim_space given)
    raise_if (not (is_role role)) invalid_role
    o ← get_by_name fails org_name
    raise_if (fails 1) internal
    found ← gets (find_user (to_lower username))
    user ← or_raise found user_not_found
    raise_if (fails 2) internal
    row ← gets (find_membership o.id user.id)
    m ← or_raise row member_not_found
    keep_an_owner fails o.id (str_eq m.role "owner" && str_eq role "member")
    raise_if (fails 4) internal
    modify λ db. record db {
      org_members = update_where (is_membership o.id user.id) (set_role role) db.org_members;
    }
