-- ===== src/Org/Departure.antt =====
-- What a user who leaves an organization keeps.
use gitwise.Prelude.{ℕ, String, false, ◌≡◌, sym, subst, arith, Option-cases, inl, inr}
use gitwise.Action.{Faults, no_faults, ok}
use gitwise.Db.{Db}
use gitwise.Org.{find_org}
use gitwise.Org.Members.{find_user, find_membership, remove_member}
use gitwise.Team.Permission.{is_owner_role, org_role, granting, get_user_repo_permission}
use gitwise.Team.Access.{HasValidPermissions, IsStrongest, get_user_repo_permission-IsStrongest}

module _ (to_lower : String → String) (fails : Faults) (org_name username : String) (db : Db) where
  remove_member-frame : (remove_member to_lower fails org_name username db).1 ≡ record db {
    org_members = (remove_member to_lower fails org_name username db).1.org_members;
  }
  unfolding remove_member
  remove_member-frame = elim (Option-cases (find_org org_name db)) [
    | inl e ↦ ground arith
    | inr (o, e) ↦ elim (Option-cases (find_user (to_lower username) db)) [
      | inl e' ↦ ground arith
      | inr (u, e') ↦ elim (Option-cases (find_membership o.id u.id db)) [
        | inl e'' ↦ ground arith
        | inr (m, e'') ↦ ground arith
      ]
    ]
  ]

  -- `RemoveMember` takes no one out of a team: whatever it returns, a user who does not own the
  -- organization of a repository has on it the strongest permission among the teams that the user
  -- was in before the call.
  pub remove_member_keeps_team_permission :
      (user repo : ℕ)
      → HasValidPermissions db.org_teams
      → let db' = (remove_member to_lower fails org_name username db).1 in
        is_owner_role (org_role user repo db') ≡ false
        → (p : String) × (get_user_repo_permission no_faults user repo db' ≡ (ok p, db'))
          × IsStrongest p (granting user repo db)
  remove_member_keeps_team_permission user repo v h =
      let db' : Db = (remove_member to_lower fails org_name username db).1 in
      let frame = remove_member-frame in
      let v' : HasValidPermissions db'.org_teams =
        subst (λ (d : Db). HasValidPermissions d.org_teams) (sym frame) v in
      let (p, e, _, strongest) = get_user_repo_permission-IsStrongest db' user repo v' in
      (p, e, subst (λ (d : Db). IsStrongest p (granting user repo d)) frame (strongest h))
