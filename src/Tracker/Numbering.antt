-- ===== src/Tracker/Numbering.antt =====
-- The calls on issues, milestones and pull requests, and the numbers they give out.
use gitwise.Prelude.{
  ℕ, String, Bool, ◌&&◌, List, [], ◌∷◌, ◌++◌, ◌≡◌, refl, sym, subst, ap, ◌∙◌, inl, inr, ◌==◌,
  update_where, Bool-cases,
}
use gitwise.Text.{trim_space}
use gitwise.Action.{Faults, after, Result-cases}
use gitwise.Db.{Db, IssueRow, PullRow, CounterRow}
use gitwise.Field.{trimmed}
use gitwise.Git.{Git}
use gitwise.Pull.{World}
use gitwise.Pull.Requests as Requests
use gitwise.Pull.Requests.{next_number, bump_counter, is_updatable, insert_pull}
use gitwise.Pull.History as Pulls
use gitwise.Pull.Keys.{SameKey}
use gitwise.Pull.Merge.{merge, set_merged, strategy_of}
use gitwise.Pull.Outcome.{merge_ok, merge_err}
use gitwise.Pull.Lifecycle.{create_cases, update_cases, insert_pull_cases}
use gitwise.Issue.{is_issue}
use gitwise.Issue.Changes as Issues
use gitwise.Milestone as Milestones
use gitwise.Tracker.{
  Call, on_pulls, creates_issue, updates_issue, creates_milestone, updates_milestone,
  deletes_milestone, step, run,
}
use gitwise.Tracker.Effects.{
  insert_issue_cases, write_cases, insert_pull-issues, create_milestone_cases,
  update_milestone_cases, delete_milestone_cases, create_issue_cases, update_issue_cases,
}
use gitwise.Tracker.Numbers.{
  Tag, issue_tags, pull_tags, tags, AreNumbered, Effect, keeps, bumps, inserts, Effect-AreNumbered,
}

abbrev pub Affects : Db → Db → Type 0
Affects db db' = Effect db.repo_counters (tags db) db'.repo_counters (tags db')

-- a change of issues that keeps their numbers
abbrev KeepsTag : (IssueRow → IssueRow) → Type 0
KeepsTag f = (i : IssueRow) → ((f i).repo_id ≡ i.repo_id) × ((f i).number ≡ i.number)

issue_tags-update :
    (q : IssueRow → Bool) (f : IssueRow → IssueRow)
    → KeepsTag f
    → (is : List IssueRow) → issue_tags (update_where q f is) ≡ issue_tags is
issue_tags-update q f k [] = refl
issue_tags-update q f k (i ∷ is) = elim (Bool-cases (q i)) [
  | inl e ↦ rw (e, (k i).0, (k i).1) (ap (◌∷◌ (i.repo_id, i.number)) (issue_tags-update q f k is))
  | inr e ↦ rw e (ap (◌∷◌ (i.repo_id, i.number)) (issue_tags-update q f k is))
]

pull_tags-update :
    (q : PullRow → Bool) (f : PullRow → PullRow)
    → SameKey f
    → (ps : List PullRow) → pull_tags (update_where q f ps) ≡ pull_tags ps
pull_tags-update q f k [] = refl
pull_tags-update q f k (p ∷ ps) = elim (Bool-cases (q p)) [
  | inl e ↦ rw (e, (k p).1, (k p).2) (ap (◌∷◌ (p.repo_id, p.number)) (pull_tags-update q f k ps))
  | inr e ↦ rw e (ap (◌∷◌ (p.repo_id, p.number)) (pull_tags-update q f k ps))
]

issue_tags-append :
    (is : List IssueRow) (i : IssueRow)
    → issue_tags (is ++ i ∷ []) ≡ issue_tags is ++ (i.repo_id, i.number) ∷ []
issue_tags-append [] i = refl
issue_tags-append (j ∷ is) i = ap (◌∷◌ (j.repo_id, j.number)) (issue_tags-append is i)

pull_tags-append :
    (ps : List PullRow) (p : PullRow)
    → pull_tags (ps ++ p ∷ []) ≡ pull_tags ps ++ (p.repo_id, p.number) ∷ []
pull_tags-append [] p = refl
pull_tags-append (q ∷ ps) p = ap (◌∷◌ (q.repo_id, q.number)) (pull_tags-append ps p)

append_at_end : (xs ys : List Tag) (t : Tag) → xs ++ (ys ++ t ∷ []) ≡ ((xs ++ ys) ++ t ∷ []) ++ []
append_at_end [] [] t = refl
append_at_end [] (y ∷ ys) t = ap (◌∷◌ y) (append_at_end [] ys t)
append_at_end (x ∷ xs) ys t = ap (◌∷◌ x) (append_at_end xs ys t)

no_rest : (xs : List Tag) → xs ≡ xs ++ []
no_rest [] = refl
no_rest (x ∷ xs) = ap (◌∷◌ x) (no_rest xs)

module _ (db : Db) where
  unchanged : (db' : Db) → db' ≡ db → Affects db db'
  unchanged db' e = subst (Affects db) (sym e) (keeps refl refl)

  issues_changed :
      (q : IssueRow → Bool) (f : IssueRow → IssueRow)
      → KeepsTag f
      → Affects db (record db { issues = update_where q f db.issues })
  issues_changed q f k =
      keeps refl
        (ap (λ (l : List Tag). l ++ pull_tags db.pull_requests) (issue_tags-update q f k db.issues))

  pulls_changed :
      (q : PullRow → Bool) (f : PullRow → PullRow)
      → SameKey f
      → Affects db (record db { pull_requests = update_where q f db.pull_requests })
  pulls_changed q f k =
      keeps refl
        (ap (λ (l : List Tag). issue_tags db.issues ++ l) (pull_tags-update q f k db.pull_requests))

  -- by the tables of the state after the call
  affects :
      (db' : Db) (cs : List CounterRow) (is : List IssueRow) (ps : List PullRow)
      → db'.repo_counters ≡ cs
      → db'.issues ≡ is
      → db'.pull_requests ≡ ps
      → Effect db.repo_counters (tags db) cs (issue_tags is ++ pull_tags ps)
      → Affects db db'
  affects db' cs is ps e f h v = rw (e, f, h) v

  insert_pull-Affects :
      (fails : Faults) (id now repo author : ℕ) (title : String)
      (req : Requests.CreatePullRequestRequest) (diff : gitwise.Git.DiffResponse)
      → Affects db (insert_pull fails id now repo author title req diff db).1
  insert_pull-Affects fails id now repo author title req diff =
      let db' : Db = (insert_pull fails id now repo author title req diff db).1 in
      let issues = (insert_pull-issues fails id now repo author title req diff db).0 in
      elim (insert_pull_cases fails id now repo author title req diff db) [
        | inl (p, c) ↦ affects db' _ _ _ c issues p (keeps refl refl)
        | inr rest ↦ elim rest [
          | inl (p, c) ↦ affects db' _ _ _ c issues p (bumps repo refl refl)
          | inr (p, c, _) ↦ affects db' _ _ _ c issues p (
              inserts repo (tags db) [] refl (no_rest (tags db)) (
                ap (λ (l : List Tag). issue_tags db.issues ++ l)
                  (pull_tags-append db.pull_requests _)
                ∙ append_at_end (issue_tags db.issues) (pull_tags db.pull_requests) _))
        ]
      ]

  insert_issue-Affects :
      (fails : Faults) (id now repo author : ℕ) (title : String) (req : Issues.CreateIssueRequest)
      (assignees : List ℕ)
      → Affects db (Issues.insert_issue fails id now repo author title req assignees db).1
  insert_issue-Affects fails id now repo author title req assignees =
      elim (insert_issue_cases fails id now repo author title req assignees db) [
        | inl e ↦ unchanged _ e
        | inr rest ↦ elim rest [
          | inl e ↦ subst (Affects db) (sym e) (bumps repo refl refl)
          | inr (e, _) ↦ subst (Affects db) (sym e) (
              inserts repo (issue_tags db.issues) (pull_tags db.pull_requests) refl refl (
                ap (λ (l : List Tag). l ++ pull_tags db.pull_requests)
                  (issue_tags-append db.issues _)))
        ]
      ]

module _ (g : Git) (collate : String → String → Bool) where
  pulls-Affects : (w : World g) (c : Pulls.Call) → Affects w.db (Pulls.step g collate w c).db
  pulls-Affects w (Pulls.creates fails id now repo author owner name req) =
      elim (create_cases g fails id now repo author owner name req w) [
        | inl e ↦ unchanged w.db _ e
        | inr (diff, e) ↦
            subst (Affects w.db) (sym e)
              (insert_pull-Affects w.db fails id now repo author (trim_space req.title) req diff)
      ]
  pulls-Affects w (Pulls.updates fails now repo number req) =
      elim (update_cases fails now repo number req w.db) [
        | inl e ↦ unchanged w.db _ e
        | inr (s, e) ↦ subst (Affects w.db) (sym e) (
            pulls_changed w.db (is_updatable repo number) (Requests.assign now req)
              (λ p. (refl, refl, refl)))
      ]
  pulls-Affects w (Pulls.merges fails now repo number merger owner name req) =
      elim (Result-cases (merge g collate fails now repo number merger owner name req w).0) [
        | inl (r, e) ↦
            let (_, _, (_, _, _, _, _, f)) =
              merge_ok g collate fails now repo number merger owner name req w r e in
            subst (Affects w.db) (sym f) (
              pulls_changed w.db _ (set_merged now merger (strategy_of req.strategy))
                (λ p. (refl, refl, refl)))
        | inr (x, e) ↦
            unchanged w.db _
              (merge_err g collate fails now repo number merger owner name req w x e).0
      ]

  step-Affects : (w : World g) (c : Call) → Affects w.db (step g collate w c).db
  step-Affects w (on_pulls c) = pulls-Affects w c
  step-Affects w (creates_issue fails id now repo author req) =
      elim (create_issue_cases fails w.db id now repo author req) [
        | inl e ↦ unchanged w.db _ e
        | inr (ids, e) ↦ subst (Affects w.db) (sym e) (
            insert_issue-Affects w.db (after 1 fails) id now repo author (trim_space req.title) req
              ids)
      ]
  step-Affects w (updates_issue fails now repo number req) =
      elim (update_issue_cases fails w.db now repo number req) [
        | inl e ↦ unchanged w.db _ e
        | inr (ids, _, e) ↦
            subst (Affects w.db) (sym e)
              (elim (write_cases (after 1 fails) now repo number (trimmed req.title) req ids w.db) [
                | inl f ↦ unchanged w.db _ f
                | inr (f, _) ↦ subst (Affects w.db) (sym f) (
                    issues_changed w.db (is_issue repo number)
                      (Issues.assign now (trimmed req.title) ids req) (λ i. (refl, refl)))
              ])
      ]
  step-Affects w (creates_milestone fails id now repo req) =
      elim (create_milestone_cases fails w.db id now repo req) [
        | inl e ↦ unchanged w.db _ e
        | inr (m, e) ↦ subst (Affects w.db) (sym e) (keeps refl refl)
      ]
  step-Affects w (updates_milestone fails repo id req) =
      elim (update_milestone_cases fails w.db repo id req) [
        | inl e ↦ unchanged w.db _ e
        | inr e ↦ subst (Affects w.db) (sym e) (keeps refl refl)
      ]
  step-Affects w (deletes_milestone fails repo id) =
      let q = λ (i : IssueRow). Milestones.refers_to id i && i.repo_id == repo in
      elim (delete_milestone_cases fails w.db repo id) [
        | inl e ↦ unchanged w.db _ e
        | inr rest ↦ elim rest [
          | inl e ↦
              subst (Affects w.db) (sym e)
                (issues_changed w.db q Milestones.unset (λ i. (refl, refl)))
          | inr e ↦ subst (Affects w.db) (sym e) (
              keeps refl (
                ap (λ (l : List Tag). l ++ pull_tags w.db.pull_requests)
                  (issue_tags-update (Milestones.refers_to id) Milestones.unset (λ i. (refl, refl))
                      (update_where q Milestones.unset w.db.issues)
                    ∙ issue_tags-update q Milestones.unset (λ i. (refl, refl)) w.db.issues)))
        ]
      ]

  -- Over any sequence of calls on issues, milestones and pull requests, failing ones included, no two
  -- of a repository's issues and pull requests have the same number, an issue and a pull request
  -- neither, and each number is below the next one that the repository's counter gives out.
  pub run-AreNumbered :
      (w : World g) (calls : List Call)
      → AreNumbered w.db.repo_counters (tags w.db)
      → AreNumbered (run g collate w calls).db.repo_counters (tags (run g collate w calls).db)
  unfolding run
  run-AreNumbered w [] v = v
  run-AreNumbered w (c ∷ cs) v =
      run-AreNumbered (step g collate w c) cs (Effect-AreNumbered _ _ _ _ (step-Affects w c) v)
