-- ===== src/Tests/Trackers.antt =====
-- Issues, pull requests and milestones at the sample.
use gitwise.Prelude.{false, none, some, List, [], ◌∷◌, refl, arith}
use gitwise.Action.{no_faults}
use gitwise.Issue.Changes.{CreateIssueRequest, UpdateIssueRequest}
use gitwise.Pull.Requests.{CreatePullRequestRequest}
use gitwise.Pull.History.{creates}
use gitwise.Tracker.{
  Call, on_pulls, creates_issue, updates_issue, creates_milestone, deletes_milestone, run,
}
use gitwise.Tracker.Numbers.{tags, AreNumbered}
use gitwise.Tracker.Numbering.{run-AreNumbered}
use gitwise.Tests.Sample.{any_order, counting, world}

abbrev report : CreateIssueRequest
report = record {
  title = "bug";
  body = "";
  labels = [];
  priority = "high";
  assignees = [];
  milestone_id = some 80;
}

abbrev close : UpdateIssueRequest
close = record {
  title = none;
  body = none;
  status = some "closed";
  labels = none;
  priority = none;
  assignees = none;
  milestone_id = none;
}

abbrev fix : CreatePullRequestRequest
fix = record {
  title = "fix";
  body = "";
  source_branch = "topic";
  target_branch = "main";
  draft = false;
  intent = none;
}

abbrev calls : List Call
calls =
    creates_milestone no_faults 80 5 20 (record { title = "v1"; description = ""; due_date = none })
    ∷ creates_issue no_faults 60 6 20 1 report
    ∷ on_pulls (creates no_faults 61 7 20 1 "acme" "site" fix)
    ∷ updates_issue no_faults 8 20 3 close
    ∷ deletes_milestone no_faults 20 80
    ∷ []

run-AreNumbered_example :
    AreNumbered
      (run counting any_order world calls).db.repo_counters
      (tags (run counting any_order world calls).db)
run-AreNumbered_example =
    run-AreNumbered counting any_order world calls
      (((refl, tt), (tt, tt)), (omega arith, (omega arith, tt)))
