-- ===== src/Tracker.antt =====
-- Issues, pull requests and milestones of a database together: internal/services/issue/service.go,
-- internal/services/pull/service.go and internal/services/milestone/service.go, called in any order.
pub mod Effects
pub mod Changes
pub mod Numbers
pub mod Numbering
pub mod Dates
pub mod References
use gitwise.Prelude.{ℕ, String, Bool, List, [], ◌∷◌}
use gitwise.Action.{Faults}
use gitwise.Git.{Git}
use gitwise.Pull.{World}
use gitwise.Pull.History as Pulls
use gitwise.Issue.Changes as Issues
use gitwise.Milestone as Milestones

pub data Call : Type 0 where
  on_pulls : Pulls.Call → Call
  creates_issue : Faults → ℕ → ℕ → ℕ → ℕ → Issues.CreateIssueRequest → Call
  updates_issue : Faults → ℕ → ℕ → ℕ → Issues.UpdateIssueRequest → Call
  creates_milestone : Faults → ℕ → ℕ → ℕ → Milestones.CreateMilestoneRequest → Call
  updates_milestone : Faults → ℕ → ℕ → Milestones.UpdateMilestoneRequest → Call
  deletes_milestone : Faults → ℕ → ℕ → Call

module _ (g : Git) (collate : String → String → Bool) where
  -- the state after a call, whatever it returns
  abbrev pub step : World g → Call → World g
  step w (on_pulls call) = Pulls.step g collate w call
  step w (creates_issue fails id now repo author req) = record w {
    db = (Issues.create fails id now repo author req w.db).1;
  }
  step w (updates_issue fails now repo number req) = record w {
    db = (Issues.update fails now repo number req w.db).1;
  }
  step w (creates_milestone fails id now repo req) = record w {
    db = (Milestones.create fails id now repo req w.db).1;
  }
  step w (updates_milestone fails repo id req) = record w {
    db = (Milestones.update fails repo id req w.db).1;
  }
  step w (deletes_milestone fails repo id) = record w {
    db = (Milestones.delete fails repo id w.db).1;
  }

  pub run : World g → List Call → World g
  run w [] = w
  run w (c ∷ cs) = run (step w c) cs
