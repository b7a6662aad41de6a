-- ===== src/Server.antt =====
-- The access checks of internal/server/server.go for git over SSH and over HTTP, with the lookups
-- they make: `GetByUsername` of internal/services/user/service.go and `GetByOwnerAndName` of
-- internal/services/repo/service.go.
pub mod Access
use gitwise.Prelude.{
  ℕ, String, Bool, true, false, not, ◌&&◌, ◌||◌, Option, none, some, List, [], ◌∷◌, ◌==◌,
  if◌then◌else◌, str_eq, find, any,
}
use gitwise.Action.{Result, ok, err, Faults, after}
use gitwise.Db.{Db, UserRow, OrgRow, RepoRow, CollaboratorRow, BranchProtection, is_membership}
use gitwise.Git.{validate_path}
use gitwise.Protection
use gitwise.Team.Permission.{get_user_repo_permission}

-- `strings.ToLower`, `strings.EqualFold` and the `LOWER` of PostgreSQL
pub record Folding : Type 0 where
  pub to_lower : String → String
  pub equal_fold : String → String → Bool
  pub lower : String → String

-- the name of the owner that the two LEFT JOINs give; `none` is NULL
abbrev pub user_name : Option UserRow → Option String
user_name none = none
user_name (some u) = some u.username

abbrev pub org_name : Option OrgRow → Option String
org_name none = none
org_name (some o) = some o.name

abbrev pub owner_name : Db → RepoRow → Option String
owner_name db r =
    if str_eq r.owner_type "user"
    then user_name (find (λ u. u.id == r.owner_id) db.users)
    else if str_eq r.owner_type "org"
    then org_name (find (λ o. o.id == r.owner_id) db.organizations)
    else none

abbrev pub is_lower : (String → String) → String → Option String → Bool
is_lower lower wanted none = false
is_lower lower wanted (some name) = str_eq (lower name) wanted

-- the repository of an owner, whose name is given as it is compared
abbrev pub find_repo : (String → String) → String → String → Db → Option RepoRow
find_repo lower owner name db =
    find (λ r. is_lower lower owner (owner_name db r) && str_eq r.name name) db.repositories

-- The visibility of a private repository. The error of the third SELECT is dropped.
abbrev pub sees : Faults → Option ℕ → RepoRow → Db → Bool
sees fails none repo db = false
sees fails (some viewer) repo db =
    viewer == repo.owner_id
    || (not (fails 1) && any (is_membership repo.owner_id viewer) db.org_members)

abbrev pub shown : Faults → Option ℕ → Db → Option RepoRow → Option RepoRow
shown fails viewer db none = none
shown fails viewer db (some repo) =
    if str_eq repo.visibility "private" && not (sees fails viewer repo db) then none else some repo

abbrev pub is_collaborator : ℕ → ℕ → CollaboratorRow → Bool
is_collaborator repo user c = c.repo_id == repo && c.user_id == user

abbrev pub can_write : String → Bool
can_write role = str_eq role "write" || str_eq role "admin"

-- what the role of a collaborator alone allows
abbrev pub role_allows : String → Option CollaboratorRow → Bool
role_allows service none = false
role_allows service (some c) = str_eq service "git-upload-pack" || can_write c.role

abbrev pub team_allows : {E : Type 0} → String → Result E String → Bool
team_allows service (err e) = false
team_allows service (ok permission) =
    if str_eq permission "" then false else str_eq service "git-upload-pack" || can_write permission

abbrev pub repo_allows : Faults → UserRow → String → Db → Option RepoRow → Bool
repo_allows fails user service db none = false
repo_allows fails user service db (some repo) =
    if str_eq service "git-upload-pack" && str_eq repo.visibility "public"
    then true
    else if fails 0
    then false
    else if role_allows service (find (is_collaborator repo.id user.id) db.repo_collaborators)
    then true
    else team_allows service (get_user_repo_permission (after 1 fails) user.id repo.id db).0

abbrev pub user_id : Option UserRow → Option ℕ
user_id none = none
user_id (some u) = some u.id

abbrev pub http_allows : Option ℕ → Option RepoRow → Bool
http_allows viewer none = false
http_allows none (some repo) = str_eq repo.visibility "public"
http_allows (some viewer) (some repo) = true

-- the error of a push to a protected branch, of which the rule is kept; `none` is nil
abbrev pub verdict : Result Protection.Error (Option BranchProtection) → Option BranchProtection
verdict (err e) = none
verdict (ok rule) = rule

abbrev pub check_repo :
    (String → String → Bool) → Faults → String → Db → Option RepoRow → Option BranchProtection
check_repo collate fails branch db none = none
check_repo collate fails branch db (some repo) =
    verdict (Protection.check collate fails repo.id branch db).0

module _ (fold : Folding) where
  -- `none` is any error
  unfoldable pub get_by_username : Faults → String → Db → Option UserRow
  get_by_username fails username db =
      if fails 0 then none else find (λ u. str_eq u.username (fold.to_lower username)) db.users

  unfoldable pub get_by_owner_and_name : Faults → String → String → Option ℕ → Db → Option RepoRow
  get_by_owner_and_name fails owner name viewer db =
      if fails 0
      then none
      else shown fails viewer db (find_repo fold.lower (fold.to_lower owner) name db)

  abbrev pub user_allows : Faults → String → String → String → Db → Option UserRow → Bool
  user_allows fails owner name service db none = false
  user_allows fails owner name service db (some user) =
      repo_allows (after 2 fails) user service db
        (get_by_owner_and_name fails owner name (some user.id) db)

  unfoldable pub check_ssh_access : Faults → String → String → String → String → Db → Bool
  check_ssh_access fails username owner name service db =
      if not (validate_path (owner ∷ name ∷ []))
      then false
      else if fold.equal_fold username owner
      then true
      else user_allows (after 1 fails) owner name service db (get_by_username fails username db)

  -- an anonymous request, and one whose user is not found, has no viewer
  abbrev pub viewer_of : Faults → String → Db → Option ℕ
  viewer_of fails username db =
      if str_eq username "" then none else user_id (get_by_username fails username db)

  unfoldable pub check_http_read_access : Faults → String → String → String → Db → Bool
  check_http_read_access fails username owner name db =
      if not (validate_path (owner ∷ name ∷ []))
      then false
      else let viewer = viewer_of fails username db in
        http_allows viewer (get_by_owner_and_name (after 1 fails) owner name viewer db)

  unfoldable pub check_branch_protection :
      (String → String → Bool) → Faults → String → String → String → Db → Option BranchProtection
  check_branch_protection collate fails owner name branch db =
      if fails 0
      then none
      else check_repo collate (after 1 fails) branch db
          (find_repo fold.lower (fold.lower owner) name db)
