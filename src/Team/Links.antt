-- ===== src/Team/Links.antt =====
-- The members and the repositories of a team (internal/services/team/service.go).
use gitwise.Prelude.{
  ℕ, String, Bool, not, ◌&&◌, Option, List, [], ◌∷◌, ◌++◌, ◌==◌, if◌then◌else◌, str_eq, find, any,
  keep,
}
use gitwise.Action.{Action, Faults, gets, or_raise, modify, raise_if, ◌>>=◌, ◌>>◌}
use gitwise.Db.{Db, UserRow, RepoRow, TeamLink, is_membership, is_link, linked}
use gitwise.Db.Order.{order_by}
use gitwise.Team.{Error, member_not_found, repo_not_found, internal, get}

-- `INSERT … ON CONFLICT DO NOTHING`
abbrev pub insert_link : ℕ → ℕ → List TeamLink → List TeamLink
insert_link team target links =
    if linked team target links
    then links
    else links ++ record { team_id = team; target_id = target } ∷ []

abbrev pub delete_link : ℕ → ℕ → List TeamLink → List TeamLink
delete_link team target = keep (λ l. not (is_link team target l))

-- the user of that name, if the organization has it as a member
abbrev pub find_org_user : ℕ → String → Db → Option UserRow
find_org_user org_id username db =
    find (λ u. str_eq u.username username && any (is_membership org_id u.id) db.org_members)
      db.users

abbrev pub find_user : String → Db → Option UserRow
find_user username db = find (λ u. str_eq u.username username) db.users

abbrev pub find_owned_repo : ℕ → String → Db → Option RepoRow
find_owned_repo org_id repo_name db =
    find (λ r. r.owner_id == org_id && str_eq r.name repo_name) db.repositories

unfoldable pub add_member : Faults → ℕ → String → String → Action Db Error (Unit {0})
unfolding get
add_member fails org_id team_name username = do
  team ← get fails org_id team_name
  raise_if (fails 1) internal
  found ← gets (find_org_user org_id username)
  user ← or_raise found member_not_found
  raise_if (fails 2) internal
  modify (λ db. record db { org_team_members = insert_link team.id user.id db.org_team_members })

unfoldable pub remove_member : Faults → ℕ → String → String → Action Db Error (Unit {0})
unfolding get
remove_member fails org_id team_name username = do
  team ← get fails org_id team_name
  raise_if (fails 1) internal
  found ← gets (find_user username)
  user ← or_raise found member_not_found
  raise_if (fails 2) internal
  present ← gets (λ db. linked team.id user.id db.org_team_members)
  modify (λ db. record db { org_team_members = delete_link team.id user.id db.org_team_members })
  raise_if (not present) member_not_found

-- the rows of `links` that join a row of `rows` on its id, in the order of `links`
abbrev pub join_on {ℓ} : {A : Type ℓ} → (A → ℕ) → List A → List TeamLink → List A
join_on id rows [] = []
join_on id rows (l ∷ links) =
    let rest = join_on id rows links in keep (λ a. id a == l.target_id) rows ++ rest

unfoldable pub list_members :
    (String → String → Bool) → Faults → ℕ → String → Action Db Error (List UserRow)
unfolding get
list_members collate fails org_id team_name = do
  team ← get fails org_id team_name
  raise_if (fails 1) internal
  gets λ db.
      order_by (λ a b. collate a.username b.username)
        (join_on (λ u. u.id) db.users (keep (λ l. l.team_id == team.id) db.org_team_members))

unfoldable pub add_repo : Faults → ℕ → String → String → Action Db Error (Unit {0})
unfolding get
add_repo fails org_id team_name repo_name = do
  team ← get fails org_id team_name
  raise_if (fails 1) internal
  found ← gets (find_owned_repo org_id repo_name)
  repo ← or_raise found repo_not_found
  raise_if (fails 2) internal
  modify (λ db. record db { org_team_repos = insert_link team.id repo.id db.org_team_repos })

unfoldable pub remove_repo : Faults → ℕ → String → String → Action Db Error (Unit {0})
unfolding get
remove_repo fails org_id team_name repo_name = do
  team ← get fails org_id team_name
  raise_if (fails 1) internal
  found ← gets (find_owned_repo org_id repo_name)
  repo ← or_raise found repo_not_found
  raise_if (fails 2) internal
  present ← gets (λ db. linked team.id repo.id db.org_team_repos)
  modify (λ db. record db { org_team_repos = delete_link team.id repo.id db.org_team_repos })
  raise_if (not present) repo_not_found

unfoldable pub list_repos :
    (String → String → Bool) → Faults → ℕ → String → Action Db Error (List RepoRow)
unfolding get
list_repos collate fails org_id team_name = do
  team ← get fails org_id team_name
  raise_if (fails 1) internal
  gets λ db.
      order_by (λ a b. collate a.name b.name)
        (join_on (λ r. r.id) db.repositories (keep (λ l. l.team_id == team.id) db.org_team_repos))
