-- ===== src/Tests/Accounts.antt =====
-- Organizations, teams and their permissions at the sample.
use gitwise.Prelude.{◌≤◌, String, true, false, ◌≡◌, refl, arith, ◌==◌}
use gitwise.Text.{trim_space}
use gitwise.Action.{Faults, no_faults, ok}
use gitwise.Db.Order.{order_by}
use gitwise.Team.Links.{add_member}
use gitwise.Team.Permission.{get_user_repo_permission, is_owner_role, org_role, granting}
use gitwise.Team.Access.{IsStrongest, get_user_repo_permission-IsStrongest}
use gitwise.Org.Members
use gitwise.Org.Members.{owner_count, remove_member, update_member_role}
use gitwise.Org.Owners.{remove_member-owned, add_member_demotes_last_owner}
use gitwise.Org.Departure.{remove_member_keeps_team_permission}
use gitwise.Tests.Sample.{sample, ada, acme, same_text}

bob_writes : (get_user_repo_permission no_faults 2 20 sample).0 ≡ ok "write"
unfolding get_user_repo_permission order_by
bob_writes = refl

get_user_repo_permission-IsStrongest_example :
    (p : String) × (get_user_repo_permission no_faults 2 20 sample ≡ (ok p, sample))
    × (is_owner_role (org_role 2 20 sample) ≡ true → p ≡ "admin")
    × (is_owner_role (org_role 2 20 sample) ≡ false → IsStrongest p (granting 2 20 sample))
get_user_repo_permission-IsStrongest_example =
    get_user_repo_permission-IsStrongest sample 2 20 (refl, (refl, tt))

abbrev second_fails : Faults
second_fails n = n == 1

ada_joins : (add_member no_faults 10 "dev" "ada" sample).0 ≡ ok tt
unfolding add_member
ada_joins = refl

remove_member-owned_example :
    1 ≤ owner_count 10 (remove_member same_text no_faults "acme" "ada" sample).1.org_members
remove_member-owned_example =
    remove_member-owned same_text no_faults "acme" "ada" sample 10 (refl, (refl, tt)) (omega arith)

add_member_demotes_last_owner_example :
    ((Members.add_member same_text no_faults "acme" "ada" "member" sample).0 ≡ ok tt)
    × (owner_count 10
          (Members.add_member same_text no_faults "acme" "ada" "member" sample).1.org_members
        ≡ 0)
unfolding trim_space
add_member_demotes_last_owner_example =
    add_member_demotes_last_owner same_text "acme" "ada" "member" sample acme ada
      (record { org_id = 10; user_id = 1; role = "owner" }) (refl, (refl, tt)) refl refl refl refl
      refl refl

bob_is_removed : (remove_member same_text no_faults "acme" "bob" sample).0 ≡ ok tt
unfolding remove_member
bob_is_removed = refl

bob_no_owner :
    is_owner_role (org_role 2 20 (remove_member same_text no_faults "acme" "bob" sample).1) ≡ false
unfolding remove_member
bob_no_owner = refl

remove_member_keeps_team_permission_example :
    let db' = (remove_member same_text no_faults "acme" "bob" sample).1 in
    (p : String) × (get_user_repo_permission no_faults 2 20 db' ≡ (ok p, db'))
    × IsStrongest p (granting 2 20 sample)
remove_member_keeps_team_permission_example =
    remove_member_keeps_team_permission same_text no_faults "acme" "bob" sample 2 20
      (refl, (refl, tt)) bob_no_owner
