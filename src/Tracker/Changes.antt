-- ===== src/Tracker/Changes.antt =====
-- What a call changes in the tables of issues and milestones.
use gitwise.Prelude.{
  ℕ, String, Bool, true, false, not, ◌&&◌, Option, none, some, List, [], ◌∷◌, ◌++◌, ◌≡◌, refl, sym,
  subst, ap, ◌∙◌, inl, inr, arith, ◌==◌, any, keep, update_where,
}
use gitwise.Text.{trim_space}
use gitwise.Action.{after, Result-cases}
use gitwise.Db.{Db, IssueRow, MilestoneRow}
use gitwise.Field.{refuses, trimmed}
use gitwise.Git.{Git}
use gitwise.Pull.{World}
use gitwise.Pull.History as Pulls
use gitwise.Pull.Merge.{merge}
use gitwise.Pull.Outcome.{merge_ok, merge_err}
use gitwise.Pull.Lifecycle.{create_cases, update_cases}
use gitwise.Issue.{is_issue, is_valid_issue_status}
use gitwise.Issue.Changes.{UpdateIssueRequest, dangles, assign}
use gitwise.Milestone as Milestones
use gitwise.Tracker.{
  Call, on_pulls, creates_issue, updates_issue, creates_milestone, updates_milestone,
  deletes_milestone, step,
}
use gitwise.Tracker.Effects.{
  insert_issue_cases, write_cases, insert_pull-issues, create_milestone_cases,
  update_milestone_cases, delete_milestone_cases, create_issue_cases, update_issue_cases,
}

-- the milestones of one list are in the other
abbrev pub Stay : List MilestoneRow → List MilestoneRow → Type 0
Stay ms ms' = (o : Option ℕ) → dangles ms o ≡ false → dangles ms' o ≡ false

pub data Change (db db' : Db) : Type 0 where
  quiet : db'.issues ≡ db.issues → Stay db.milestones db'.milestones → Change db db'
  adds :
      (i : IssueRow)
      → db'.issues ≡ db.issues ++ i ∷ []
      → db'.milestones ≡ db.milestones
      → dangles db.milestones i.milestone_id ≡ false
      → i.status ≡ "open"
      → i.closed_at ≡ none
      → Change db db'
  edits :
      (q : IssueRow → Bool) (now : ℕ) (title : Option String) (assignees : Option (List ℕ))
      (req : UpdateIssueRequest)
      → db'.issues ≡ update_where q (assign now title assignees req) db.issues
      → db'.milestones ≡ db.milestones
      → dangles db.milestones req.milestone_id ≡ false
      → refuses (λ s. not (is_valid_issue_status s)) req.status ≡ false
      → Change db db'
  unsets :
      (q : IssueRow → Bool)
      → db'.issues ≡ update_where q Milestones.unset db.issues
      → db'.milestones ≡ db.milestones
      → Change db db'
  deletes :
      (repo id : ℕ) (q : IssueRow → Bool)
      → db'.issues
        ≡ update_where
            (Milestones.refers_to id)
            Milestones.unset
            (update_where q Milestones.unset db.issues)
      → db'.milestones ≡ keep (λ m. not (Milestones.is_milestone repo id m)) db.milestones
      → Change db db'

Stay-refl : (ms : List MilestoneRow) → Stay ms ms
Stay-refl ms o h = h

same : (db db' : Db) → db' ≡ db → Change db db'
same db db' e =
    quiet (ap (λ (d : Db). d.issues) e)
      (subst (Stay db.milestones) (sym (ap (λ (d : Db). d.milestones) e)) (Stay-refl db.milestones))

Stay-append : (ms : List MilestoneRow) (m : MilestoneRow) → Stay ms (ms ++ m ∷ [])
Stay-append ms m none h = refl
Stay-append ms m (some id) h = ground (arith, any_longer ms)
  where
    any_longer :
        (xs : List MilestoneRow)
        → any (λ (x : MilestoneRow). x.id == id) xs ≡ true
        → any (λ (x : MilestoneRow). x.id == id) (xs ++ m ∷ []) ≡ true
    any_longer [] k = ground arith
    any_longer (x ∷ xs) k = ground (arith, any_longer xs)

Stay-update :
    (ms : List MilestoneRow) (q : MilestoneRow → Bool) (title : Option String)
    (req : Milestones.UpdateMilestoneRequest)
    → Stay ms (update_where q (Milestones.assign title req) ms)
Stay-update ms q title req none h = refl
Stay-update ms q title req (some id) h = ap not (any_same ms) ∙ h
  where
    any_same :
        (xs : List MilestoneRow)
        → any (λ (x : MilestoneRow). x.id == id) (update_where q (Milestones.assign title req) xs)
          ≡ any (λ (x : MilestoneRow). x.id == id) xs
    any_same [] = refl
    any_same (x ∷ xs) = ground (arith, any_same xs)

module _ (g : Git) (collate : String → String → Bool) where
  pulls_quiet :
      (w : World g) (c : Pulls.Call)
      → ((Pulls.step g collate w c).db.issues ≡ w.db.issues)
        × ((Pulls.step g collate w c).db.milestones ≡ w.db.milestones)
  pulls_quiet w (Pulls.creates fails id now repo author owner name req) =
      elim (create_cases g fails id now repo author owner name req w) [
        | inl e ↦ (ap (λ (d : Db). d.issues) e, ap (λ (d : Db). d.milestones) e)
        | inr (diff, e) ↦
            let kept =
              insert_pull-issues fails id now repo author (trim_space req.title) req diff w.db in
            (ap (λ (d : Db). d.issues) e ∙ kept.0, ap (λ (d : Db). d.milestones) e ∙ kept.1)
      ]
  pulls_quiet w (Pulls.updates fails now repo number req) =
      elim (update_cases fails now repo number req w.db) [
        | inl e ↦ (ap (λ (d : Db). d.issues) e, ap (λ (d : Db). d.milestones) e)
        | inr (s, e) ↦ (ap (λ (d : Db). d.issues) e, ap (λ (d : Db). d.milestones) e)
      ]
  pulls_quiet w (Pulls.merges fails now repo number merger owner name req) =
      elim (Result-cases (merge g collate fails now repo number merger owner name req w).0) [
        | inl (r, e) ↦
            let (_, _, (_, _, _, _, _, f)) =
              merge_ok g collate fails now repo number merger owner name req w r e in
            (ap (λ (d : Db). d.issues) f, ap (λ (d : Db). d.milestones) f)
        | inr (x, e) ↦
            let f = (merge_err g collate fails now repo number merger owner name req w x e).0 in
            (ap (λ (d : Db). d.issues) f, ap (λ (d : Db). d.milestones) f)
      ]

  pub step-Change : (w : World g) (c : Call) → Change w.db (step g collate w c).db
  step-Change w (on_pulls c) =
      let (i, m) = pulls_quiet w c in
      quiet i (subst (Stay w.db.milestones) (sym m) (Stay-refl w.db.milestones))
  step-Change w (creates_issue fails id now repo author req) =
      elim (create_issue_cases fails w.db id now repo author req) [
        | inl e ↦ same w.db _ e
        | inr (ids, e) ↦
            subst (Change w.db) (sym e)
              (elim (insert_issue_cases (after 1 fails) id now repo author (trim_space req.title)
                req ids w.db) [
                  | inl f ↦ same w.db _ f
                  | inr rest ↦ elim rest [
                    | inl f ↦ subst (Change w.db) (sym f) (quiet refl (Stay-refl w.db.milestones))
                    | inr (f, h) ↦ subst (Change w.db) (sym f) (adds _ refl refl h refl refl)
                  ]
                ])
      ]
  step-Change w (updates_issue fails now repo number req) =
      elim (update_issue_cases fails w.db now repo number req) [
        | inl e ↦ same w.db _ e
        | inr (ids, valid, e) ↦
            subst (Change w.db) (sym e)
              (elim (write_cases (after 1 fails) now repo number (trimmed req.title) req ids w.db) [
                | inl f ↦ same w.db _ f
                | inr (f, h) ↦
                    subst (Change w.db) (sym f) (
                      edits (is_issue repo number) now (trimmed req.title) ids req refl refl h
                        valid)
              ])
      ]
  step-Change w (creates_milestone fails id now repo req) =
      elim (create_milestone_cases fails w.db id now repo req) [
        | inl e ↦ same w.db _ e
        | inr (m, e) ↦ subst (Change w.db) (sym e) (quiet refl (Stay-append w.db.milestones m))
      ]
  step-Change w (updates_milestone fails repo id req) =
      elim (update_milestone_cases fails w.db repo id req) [
        | inl e ↦ same w.db _ e
        | inr e ↦ subst (Change w.db) (sym e) (
            quiet refl (
              Stay-update w.db.milestones (Milestones.is_milestone repo id) (trimmed req.title)
                req))
      ]
  step-Change w (deletes_milestone fails repo id) =
      elim (delete_milestone_cases fails w.db repo id) [
        | inl e ↦ same w.db _ e
        | inr rest ↦ elim rest [
          | inl e ↦
              subst (Change w.db) (sym e)
                (unsets (λ i. Milestones.refers_to id i && i.repo_id == repo) refl refl)
          | inr e ↦
              subst (Change w.db) (sym e)
                (deletes repo id (λ i. Milestones.refers_to id i && i.repo_id == repo) refl refl)
        ]
      ]
