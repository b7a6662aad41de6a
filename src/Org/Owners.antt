-- ===== src/Org/Owners.antt =====
-- Which changes of the members of an organization can leave it without an owner.
use gitwise.Prelude.{
  ℕ, ◌+◌, ◌≤◌, String, false, not, ◌&&◌, some, List, [], ◌∷◌, ◌≡◌, refl, arith, ◌==◌, if◌then◌else◌,
  str_eq, str_eq_iff, find, any, any_of_find, keep, update_where, Option-cases, inl, inr,
}
use gitwise.Text.{trim_space}
use gitwise.Action.{Faults, no_faults, ok}
use gitwise.Db.{Db, UserRow, OrgRow, OrgMemberRow, is_membership}
use gitwise.Org.{find_org}
use gitwise.Org.Members.{
  owner_count, set_role, find_user, find_membership, add_member, remove_member, update_member_role,
}

-- the primary key of `org_members`
abbrev pub IsKeyed : List OrgMemberRow → Type 0
IsKeyed [] = Unit
IsKeyed (m ∷ ms) = (any (is_membership m.org_id m.user_id) ms ≡ false) × IsKeyed ms

abbrev pub as_owner : ℕ → ℕ → String → ℕ
as_owner k org role = if k == org && str_eq role "owner" then 1 else 0

module _ (k org user : ℕ) where
  owner_count-keep_absent :
      (ms : List OrgMemberRow)
      → any (is_membership org user) ms ≡ false
      → owner_count k (keep (λ r. not (is_membership org user r)) ms) ≡ owner_count k ms
  owner_count-keep_absent [] h = refl
  owner_count-keep_absent (x ∷ ms) h = ground (arith, owner_count-keep_absent ms)

  owner_count-keep :
      (ms : List OrgMemberRow) (m : OrgMemberRow)
      → IsKeyed ms
      → find (is_membership org user) ms ≡ some m
      → owner_count k (keep (λ r. not (is_membership org user r)) ms) + as_owner k org m.role
        ≡ owner_count k ms
  owner_count-keep [] m v h = cc
  owner_count-keep (x ∷ ms) m v h =
      ground (arith, owner_count-keep ms m v.1, owner_count-keep_absent ms)

  owner_count-set_absent :
      (role : String) (ms : List OrgMemberRow)
      → any (is_membership org user) ms ≡ false
      → owner_count k (update_where (is_membership org user) (set_role role) ms) ≡ owner_count k ms
  owner_count-set_absent role [] h = refl
  owner_count-set_absent role (x ∷ ms) h = ground (arith, owner_count-set_absent role ms)

  owner_count-set :
      (role : String) (ms : List OrgMemberRow) (m : OrgMemberRow)
      → IsKeyed ms
      → find (is_membership org user) ms ≡ some m
      → owner_count k (update_where (is_membership org user) (set_role role) ms)
          + as_owner k org m.role
        ≡ owner_count k ms + as_owner k org role
  owner_count-set role [] m v h = cc
  owner_count-set role (x ∷ ms) m v h =
      ground (arith, owner_count-set role ms m v.1, owner_count-set_absent role ms)

module _ (to_lower : String → String) (fails : Faults) (org_name username : String) (db : Db)
    (k : ℕ) where
  -- Removing a member never leaves an organization that had an owner without one, whatever the
  -- names, whichever statement fails, and whether the call succeeds or not.
  pub remove_member-owned :
      IsKeyed db.org_members
      → 1 ≤ owner_count k db.org_members
      → 1 ≤ owner_count k (remove_member to_lower fails org_name username db).1.org_members
  unfolding remove_member
  remove_member-owned v h = elim (Option-cases (find_org org_name db)) [
    | inl e ↦ ground arith
    | inr (o, e) ↦ elim (Option-cases (find_user (to_lower username) db)) [
      | inl e' ↦ ground arith
      | inr (u, e') ↦ elim (Option-cases (find_membership o.id u.id db)) [
        | inl e'' ↦ ground arith
        | inr (m, e'') ↦ ground (arith, owner_count-keep k o.id u.id db.org_members m v e'')
      ]
    ]
  ]

  -- Changing a member's role never leaves an organization that had an owner without one.
  update_member_role-owned :
      (given : String)
      → IsKeyed db.org_members
      → 1 ≤ owner_count k db.org_members
      → 1
        ≤ owner_count k (update_member_role to_lower fails org_name username given db).1.org_members
  unfolding update_member_role
  update_member_role-owned given v h =
      let role = to_lower (trim_space given) in
      elim (Option-cases (find_org org_name db)) [
        | inl e ↦ ground arith
        | inr (o, e) ↦ elim (Option-cases (find_user (to_lower username) db)) [
          | inl e' ↦ ground arith
          | inr (u, e') ↦ elim (Option-cases (find_membership o.id u.id db)) [
            | inl e'' ↦ ground arith
            | inr (m, e'') ↦ ground (
              arith,
              owner_count-set k o.id u.id role db.org_members m v e'',
              str_eq_iff role "owner",
              str_eq_iff role "member",
            )
          ]
        ]
      ]

-- The only owner can be demoted through `AddMember`: called for an existing member with the role
-- "member" it succeeds, without the check of the other two methods, and no owner is left.
pub add_member_demotes_last_owner :
    (to_lower : String → String) (org_name username given : String) (db : Db) (o : OrgRow)
    (u : UserRow) (m : OrgMemberRow)
    → IsKeyed db.org_members
    → find_org org_name db ≡ some o
    → find_user (to_lower username) db ≡ some u
    → find_membership o.id u.id db ≡ some m
    → m.role ≡ "owner"
    → owner_count o.id db.org_members ≡ 1
    → to_lower (trim_space given) ≡ "member"
    → ((add_member to_lower no_faults org_name username given db).0 ≡ ok tt)
      × (owner_count o.id (add_member to_lower no_faults org_name username given db).1.org_members
          ≡ 0)
unfolding add_member
add_member_demotes_last_owner to_lower org_name username given db o u m v eo eu em r c g = rw g (
    ground (
      arith,
      owner_count-set o.id o.id u.id "member" db.org_members m v em,
      any_of_find (is_membership o.id u.id) db.org_members m em,
      str_eq_iff m.role "owner",
      r,
    ))
