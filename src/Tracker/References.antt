-- ===== src/Tracker/References.antt =====
-- The foreign key of migrations/018_issues_milestone_fk.sql, from issues to milestones, holds over calls:
-- the statements of the model that write issues or delete milestones obey it.
use gitwise.Prelude.{
  String, Bool, false, not, ◌==◌, ℕ, Option, none, some, List, [], ◌∷◌, ◌≡◌, refl, ap, ◌∙◌, inl,
  inr, arith, any, keep, update_where, Bool-cases, All, All-append, All-update_where,
}
use gitwise.Db.{Db, IssueRow, MilestoneRow}
use gitwise.Git.{Git}
use gitwise.Pull.{World}
use gitwise.Issue.Changes.{UpdateIssueRequest, assign, dangles, or_kept}
use gitwise.Milestone.{refers_to, unset, is_milestone}
use gitwise.Tracker.{Call, step, run}
use gitwise.Tracker.Changes.{Change, quiet, adds, edits, unsets, deletes, step-Change}

-- the issue has no milestone, or one of the list
abbrev pub Refers : List MilestoneRow → IssueRow → Type 0
Refers ms i = dangles ms i.milestone_id ≡ false

All-Refers :
    (ms ms' : List MilestoneRow)
    → ((o : Option ℕ) → dangles ms o ≡ false → dangles ms' o ≡ false)
    → (is : List IssueRow) → All (Refers ms) is
    → All (Refers ms') is
All-Refers ms ms' stay [] v = tt
All-Refers ms ms' stay (i ∷ is) v = (stay i.milestone_id v.0, All-Refers ms ms' stay is v.1)

assign-Refers :
    (ms : List MilestoneRow) (now : ℕ) (title : Option String) (assignees : Option (List ℕ))
    (req : UpdateIssueRequest) (i : IssueRow)
    → dangles ms req.milestone_id ≡ false
    → Refers ms i
    → Refers ms (assign now title assignees req i)
assign-Refers ms now title assignees req i h r = go req.milestone_id h
  where
    go : (o : Option ℕ) → dangles ms o ≡ false → dangles ms (or_kept o i.milestone_id) ≡ false
    go none k = r
    go (some id) k = k

-- another milestone stays when one is deleted
stays :
    (repo id n : ℕ) (ms : List MilestoneRow)
    → (n == id) ≡ false
    → any (λ m. m.id == n) (keep (λ m. not (is_milestone repo id m)) ms) ≡ any (λ m. m.id == n) ms
stays repo id n [] h = refl
stays repo id n (m ∷ ms) h = ground (arith, stays repo id n ms h)

unset-Refers_kept :
    (repo id : ℕ) (ms : List MilestoneRow) (is : List IssueRow)
    → All (Refers ms) is
    → All
        (Refers (keep (λ m. not (is_milestone repo id m)) ms))
        (update_where (refers_to id) unset is)
unset-Refers_kept repo id ms [] v = tt
unset-Refers_kept repo id ms (i ∷ is) v = elim (Bool-cases (refers_to id i)) [
  | inl e ↦ rw e (refl, unset-Refers_kept repo id ms is v.1)
  | inr e ↦ rw e (go i.milestone_id e v.0, unset-Refers_kept repo id ms is v.1)
]
  where
    go :
        (o : Option ℕ)
        → refers_to id (record i { milestone_id = o }) ≡ false
        → dangles ms o ≡ false
        → dangles (keep (λ m. not (is_milestone repo id m)) ms) o ≡ false
    go none k d = refl
    go (some n) k d = ap not (stays repo id n ms k) ∙ d

unset-Refers :
    (ms : List MilestoneRow) (q : IssueRow → Bool) (is : List IssueRow)
    → All (Refers ms) is
    → All (Refers ms) (update_where q unset is)
unset-Refers ms q is = All-update_where (Refers ms) q unset is (λ i e r. refl)

abbrev AreReferred : Db → Type 0
AreReferred db = All (Refers db.milestones) db.issues

module _ (db db' : Db) where
  build :
      (ms : List MilestoneRow) (is : List IssueRow)
      → db'.milestones ≡ ms
      → db'.issues ≡ is
      → All (Refers ms) is
      → AreReferred db'
  build ms is e f v = rw (e, f) v

  Change-AreReferred : Change db db' → AreReferred db → AreReferred db'
  Change-AreReferred (quiet e s) v =
      build db'.milestones db.issues refl e (All-Refers db.milestones db'.milestones s db.issues v)
  Change-AreReferred (adds i e m h o c) v =
      build _ _ m e (All-append (Refers db.milestones) db.issues (i ∷ []) v (h, tt))
  Change-AreReferred (edits q now title assignees req e m h r) v = build _ _ m e (
      All-update_where (Refers db.milestones) q (assign now title assignees req) db.issues
        (λ i t d. assign-Refers db.milestones now title assignees req i h d) v)
  Change-AreReferred (unsets q e m) v = build _ _ m e (unset-Refers db.milestones q db.issues v)
  Change-AreReferred (deletes repo id q e m) v = build _ _ m e (
      unset-Refers_kept repo id db.milestones (update_where q unset db.issues)
        (unset-Refers db.milestones q db.issues v))

-- Over any sequence of calls on issues, milestones and pull requests, failing ones included, each
-- issue that has a milestone has one that is there, also after milestones are deleted.
run-AreReferred :
    (g : Git) (collate : String → String → Bool) (w : World g) (calls : List Call)
    → AreReferred w.db
    → AreReferred (run g collate w calls).db
unfolding run
run-AreReferred g collate w [] v = v
run-AreReferred g collate w (c ∷ cs) v =
    run-AreReferred g collate (step g collate w c) cs
      (Change-AreReferred w.db (step g collate w c).db (step-Change g collate w c) v)
