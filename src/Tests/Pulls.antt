-- ===== src/Tests/Pulls.antt =====
-- Protection rules, branch names and pull requests at the sample.
use gitwise.Prelude.{true, false, none, some, List, [], ◌∷◌, ◌≡◌, refl, arith}
use gitwise.Action.{no_faults, ok, err}
use gitwise.Db.{UserRow}
use gitwise.Db.Order.{order_by}
use gitwise.Git.{validate_branch_name}
use gitwise.Protection.{check}
use gitwise.Protection.Glob.{match_branch}
use gitwise.Pull.{PullRequest, linear_required}
use gitwise.Pull.Requests.{UpdatePullRequestRequest}
use gitwise.Pull.Merge.{
  MergePullRequestRequest, set_merged, admit, check_pull, protection, obey, record_merge,
  merge_message, merge,
}
use gitwise.Pull.Outcome.{IsMergeOf, IsDiskOutcome, outcome, merge_ok, merge_err}
use gitwise.Pull.Keys.{Inv}
use gitwise.Pull.History.{Call, updates, merges, run, run-Inv}
use gitwise.Tests.Sample.{sample, pull, any_order, counting, world}

globs :
    (match_branch "release/*" "release/v1.0" ≡ true)
    × (match_branch "*" "release/v1.0" ≡ false)
    × (match_branch "v[0-9]?" "v1x" ≡ true)
    × (match_branch "[" "[" ≡ false)
    × (match_branch "a\\*" "a*" ≡ true)
    × (match_branch "a**b" "axxb" ≡ true)
    × (match_branch "*a?" "aaab" ≡ true)
    × (match_branch "f*/*[a-c]" "fix/x/b" ≡ false)
    × (match_branch "" "" ≡ true)
unfolding match_branch
globs = (refl, refl, refl, refl, refl, refl, refl, refl, refl)

topic_is_valid : validate_branch_name "topic/a.1" ≡ true
unfolding validate_branch_name gitwise.Text.Names.branch_name_re
topic_is_valid = refl

abbrev pub squash : MergePullRequestRequest
squash = record { strategy = "squash"; message = ""; delete_branch = true }

abbrev plain : MergePullRequestRequest
plain = record { strategy = ""; message = ""; delete_branch = false }

abbrev squashed : PullRequest
squashed = record {
  row = set_merged 9 1 "squash" pull;
  author_name = "ada";
  merged_by_name = "ada";
}

squash_merges :
    (outcome counting any_order no_faults 9 20 1 1 "acme" "site" squash world).0 ≡ ok squashed
unfolding merge admit check_pull protection obey record_merge merge_message check order_by
    match_branch
squash_merges = refl

merge_ok_example :
    (m : UserRow) × (pr : PullRequest) × IsMergeOf counting any_order no_faults 9 20 1 1 "acme"
      "site" squash world m pr
merge_ok_example =
    merge_ok counting any_order no_faults 9 20 1 1 "acme" "site" squash world squashed squash_merges

plain_is_refused :
    (outcome counting any_order no_faults 9 20 1 1 "acme" "site" plain world).0
    ≡ err linear_required
unfolding merge admit check_pull protection obey record_merge merge_message check order_by
    match_branch
plain_is_refused = refl

merge_err_example :
    ((outcome counting any_order no_faults 9 20 1 1 "acme" "site" plain world).1.db ≡ sample)
    × IsDiskOutcome counting any_order no_faults 9 20 1 1 "acme" "site" plain world linear_required
merge_err_example =
    merge_err counting any_order no_faults 9 20 1 1 "acme" "site" plain world linear_required
      plain_is_refused

abbrev pub retitle : UpdatePullRequestRequest
retitle = record {
  title = some "new";
  body = none;
  target_branch = none;
  status = some "closed";
  intent = none;
}

abbrev calls : List Call
calls =
    updates no_faults 8 20 2 retitle
    ∷ merges no_faults 9 20 1 1 "acme" "site" squash
    ∷ merges no_faults 9 20 2 1 "acme" "site" squash
    ∷ []

pub sample-Inv : Inv sample
sample-Inv = record { keyed = (refl, (refl, tt)); fresh = (omega arith, (omega arith, tt)) }

run-Inv_example : Inv (run counting any_order world calls).db
run-Inv_example = run-Inv counting any_order world calls sample-Inv
