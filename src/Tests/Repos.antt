-- ===== src/Tests/Repos.antt =====
-- Lists of repositories, and a name with two dots, at the sample.
use gitwise.Prelude.{ℕ, ◌+◌, pos, true, some, List, [], ◌∷◌, ◌++◌, ◌≡◌, refl, All, str_eq}
use gitwise.Action.{ok, err, no_faults}
use gitwise.Db.Order.{order_by, place}
use gitwise.Text.Names.{repo_name_re, branch_name_re, ends}
use gitwise.Git.{validate_branch_name}
use gitwise.Server.{Folding}
use gitwise.Repo.{CreateRepoRequest, Repository, Files, World, panicked, create}
use gitwise.Repo.Listing.{scan, list_by_owner}
use gitwise.Repo.Lists.{IsFound, list_by_owner-get_by_owner_and_name}
use gitwise.Repo.Names.{row, create_dots-panicked}
use gitwise.Tests.Sample.{sample, ada, same_text}

abbrev fold : Folding
fold = record { to_lower = same_text; equal_fold = str_eq; lower = same_text }

-- a disk that counts what is done
abbrev counting : Files
counting = record {
  Disk = ℕ;
  plain_init = λ owner name disk. (true, disk + 1);
  auto_init = λ owner name branch disk. (true, disk + 1);
  rename = λ owner old new disk. (true, disk + 1);
  remove = λ owner name disk. disk + 1;
}

abbrev world : World counting
world = record { db = sample; disk = 0 }

abbrev site : List Repository
site =
    record {
      row = record {
        id = 20;
        owner_id = 10;
        owner_type = "org";
        name = "site";
        description = "";
        visibility = "private";
        default_branch = "main";
        topics = [];
        created_at = 0;
        updated_at = 0;
      };
      owner_name = "acme";
    }
    ∷ []

ada_sees_site : (list_by_owner fold no_faults "acme" (some 1) (pos 30) sample).0 ≡ ok site
unfolding list_by_owner scan order_by place
ada_sees_site = refl

list_by_owner-get_by_owner_and_name_example :
    All (λ (x : Repository). IsFound fold "acme" (some 1) sample x.row) site
list_by_owner-get_by_owner_and_name_example =
    list_by_owner-get_by_owner_and_name fold no_faults "acme" (some 1) (pos 30) sample site
      ((refl, tt), (refl, (refl, tt))) (tt, tt) ada_sees_site

abbrev dotted : CreateRepoRequest
dotted = record {
  name = "a..b";
  description = "";
  visibility = "";
  default_branch = "";
  topics = [];
  auto_init = true;
  org_name = "";
}

dotted_matches : repo_name_re dotted.name ≡ true
unfolding repo_name_re ends
dotted_matches = refl

main_is_valid : validate_branch_name "main" ≡ true
unfolding validate_branch_name branch_name_re ends
main_is_valid = refl

create_dots-panicked_example :
    ((create fold counting no_faults 98 5 1 dotted world).0 ≡ err panicked)
    × ((create fold counting no_faults 98 5 1 dotted world).1.db.repositories
        ≡ sample.repositories ++ row 98 5 ada dotted ∷ [])
    × ((create fold counting no_faults 98 5 1 dotted world).1.disk ≡ 0)
create_dots-panicked_example =
    create_dots-panicked fold counting 98 5 ada dotted world dotted_matches refl refl main_is_valid
      refl refl refl
