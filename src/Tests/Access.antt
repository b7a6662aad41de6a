-- ===== src/Tests/Access.antt =====
-- Access over SSH and over HTTP, and pushes, at the sample.
use gitwise.Prelude.{
  String, true, false, some, [], ◌∷◌, ◌≡◌, ◌≢◌, refl, ◌⊎◌, str_eq, str_eq_iff, arith,
}
use gitwise.Action.{no_faults}
use gitwise.Db.{Db, UserRow, RepoRow, BranchProtection}
use gitwise.Git.{validate_path}
use gitwise.Protection.Check.{IsVerdict}
use gitwise.Server.{
  Folding, get_by_username, get_by_owner_and_name, check_ssh_access, check_branch_protection,
}
use gitwise.Server.Access.{Through, check_ssh_access-MayWrite, check_branch_protection-IsVerdict}
use gitwise.Tests.Sample.{sample, ada, bob, person, any_order}

-- texts that are in lower case already
abbrev as_is : Folding
as_is = record { to_lower = λ s. s; equal_fold = str_eq; lower = λ s. s }

abbrev site : RepoRow
site = record {
  id = 20;
  owner_id = 10;
  owner_type = "org";
  name = "site";
  description = "";
  visibility = "private";
  default_branch = "main";
  topics = [];
  created_at = 0;
  updated_at = 0;
}

abbrev carol : UserRow
carol = person 3 "carol" "carol@x"

-- carol is an administrator among the collaborators of the repository, and not in the organization
abbrev shared : Db
shared = record sample {
  users = ada ∷ bob ∷ carol ∷ [];
  repo_collaborators = record { repo_id = 20; user_id = 3; role = "admin" } ∷ [];
}

abbrev open_site : Db
open_site = record sample { repositories = record site { visibility = "public" } ∷ [] }

bob_pushes : check_ssh_access as_is no_faults "bob" "acme" "site" "git-receive-pack" sample ≡ true
unfolding check_ssh_access get_by_username get_by_owner_and_name validate_path
    gitwise.Team.Permission.get_user_repo_permission gitwise.Db.Order.order_by
bob_pushes = refl

check_ssh_access-MayWrite_example :
    (validate_path ("acme" ∷ "site" ∷ []) ≡ true)
    × ((str_eq "bob" "acme" ≡ true) ⊎ Through as_is no_faults "bob" "acme" "site" sample)
check_ssh_access-MayWrite_example =
    check_ssh_access-MayWrite as_is no_faults "bob" "acme" "site" sample bob_pushes

carol_is_found : get_by_username as_is no_faults "carol" shared ≡ some carol
unfolding get_by_username
carol_is_found = refl

differs : ¬ (carol.id ≡ site.owner_id)
differs e = ground arith

bob_reads : check_ssh_access as_is no_faults "bob" "acme" "site" "git-upload-pack" sample ≡ true
unfolding check_ssh_access get_by_username get_by_owner_and_name validate_path
    gitwise.Team.Permission.get_user_repo_permission gitwise.Db.Order.order_by
bob_reads = refl

is_named : (a : String) → str_eq a "" ≡ false → a ≢ ""
is_named a h e = ground (arith, str_eq_iff a "")

check_branch_protection-IsVerdict_example :
    IsVerdict sample 20 "main"
      (check_branch_protection as_is any_order no_faults "acme" "site" "main" sample)
check_branch_protection-IsVerdict_example =
    check_branch_protection-IsVerdict as_is any_order no_faults "acme" "site" "main" sample site
      refl refl refl
