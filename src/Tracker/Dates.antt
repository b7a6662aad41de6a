-- ===== src/Tracker/Dates.antt =====
-- `closed_at` of an issue goes with its status.
use gitwise.Prelude.{
  String, Bool, true, false, not, ◌||◌, ℕ, Option, none, some, List, [], ◌∷◌, ◌≡◌, refl, sym, subst,
  inl, inr, arith, str_eq, str_eq_iff, update_where, Bool-cases, All, All-append, All-update_where,
}
use gitwise.Db.{Db, IssueRow}
use gitwise.Field.{or_old, is_given, refuses}
use gitwise.Git.{Git}
use gitwise.Pull.{World}
use gitwise.Issue.{is_valid_issue_status}
use gitwise.Issue.Changes.{UpdateIssueRequest, assign, closes}
use gitwise.Milestone.{refers_to, unset}
use gitwise.Tracker.{Call, step, run}
use gitwise.Tracker.Changes.{Change, quiet, adds, edits, unsets, deletes, step-Change}

-- the issue is open just when it has no time of closing
abbrev pub IsDated : IssueRow → Type 0
IsDated i = str_eq i.status "open" ≡ not (is_given i.closed_at)

given_status :
    (now : ℕ) (old : Option ℕ) (s : String)
    → not (is_valid_issue_status s) ≡ false
    → str_eq s "open" ≡ not (is_given (closes now (some s) old))
given_status now old s h = elim (Bool-cases (str_eq s "closed" || str_eq s "duplicate")) [
  | inl e ↦ elim (Bool-cases (str_eq s "open")) [
    | inl o ↦
        let is_open : s ≡ "open" = (str_eq_iff s "open").0 o in
        let clash : (str_eq "open" "closed" || str_eq "open" "duplicate") ≡ true =
          subst (λ (x : String). (str_eq x "closed" || str_eq x "duplicate") ≡ true) is_open e in
        cc
    | inr o ↦ ground arith
  ]
  | inr e ↦ ground arith
]

assign-IsDated :
    (now : ℕ) (title : Option String) (assignees : Option (List ℕ)) (req : UpdateIssueRequest)
    (i : IssueRow)
    → refuses (λ s. not (is_valid_issue_status s)) req.status ≡ false
    → IsDated i
    → IsDated (assign now title assignees req i)
assign-IsDated now title assignees req i h d = go req.status h
  where
    go :
        (o : Option String)
        → refuses (λ s. not (is_valid_issue_status s)) o ≡ false
        → str_eq (or_old o i.status) "open" ≡ not (is_given (closes now o i.closed_at))
    go none k = d
    go (some s) k = given_status now i.closed_at s k

unset-IsDated :
    (q : IssueRow → Bool) (is : List IssueRow)
    → All IsDated is
    → All IsDated (update_where q unset is)
unset-IsDated q is = All-update_where IsDated q unset is (λ i e d. d)

Change-IsDated : (db db' : Db) → Change db db' → All IsDated db.issues → All IsDated db'.issues
Change-IsDated db db' (quiet e s) v = subst (All IsDated) (sym e) v
Change-IsDated db db' (adds i e m h o c) v =
    subst (All IsDated) (sym e) (All-append IsDated db.issues (i ∷ []) v (rw (o, c) refl, tt))
Change-IsDated db db' (edits q now title assignees req e m h r) v = subst (All IsDated) (sym e) (
    All-update_where IsDated q (assign now title assignees req) db.issues
      (λ i t d. assign-IsDated now title assignees req i r d) v)
Change-IsDated db db' (unsets q e m) v = subst (All IsDated) (sym e) (unset-IsDated q db.issues v)
Change-IsDated db db' (deletes repo id q e m) v =
    subst (All IsDated) (sym e)
      (unset-IsDated (refers_to id) (update_where q unset db.issues) (unset-IsDated q db.issues v))

-- Over any sequence of calls on issues, milestones and pull requests, failing ones included, an
-- issue has a time of closing just when its status is not "open".
run-IsDated :
    (g : Git) (collate : String → String → Bool) (w : World g) (calls : List Call)
    → All IsDated w.db.issues
    → All IsDated (run g collate w calls).db.issues
unfolding run
run-IsDated g collate w [] v = v
run-IsDated g collate w (c ∷ cs) v =
    run-IsDated g collate (step g collate w c) cs
      (Change-IsDated w.db (step g collate w c).db (step-Change g collate w c) v)
