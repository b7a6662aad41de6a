-- ===== src/Tracker/Effects.antt =====
-- What each call does to the tables.
use gitwise.Prelude.{
  ℕ, String, false, not, ◌&&◌, Option, none, some, List, [], ◌∷◌, ◌++◌, ◌≡◌, refl, ◌⊎◌, inl, inr,
  arith, find, keep, update_where, Option-cases, Bool-cases, ◌==◌,
}
use gitwise.Text.{trim_space}
use gitwise.Action.{Faults, after, Result-cases}
use gitwise.Db.{Db, IssueRow, MilestoneRow}
use gitwise.Field.{refuses, trimmed}
use gitwise.Git.{DiffResponse}
use gitwise.Pull.Requests.{CreatePullRequestRequest, insert_pull, next_number, bump_counter}
use gitwise.Issue.{
  is_issue, is_valid_issue_status, resolve_assignees, resolve_names, clean_from, find_all,
  or_unknown,
}
use gitwise.Issue.Changes.{
  CreateIssueRequest, UpdateIssueRequest, new_issue, dangles, insert_issue, create, assign, write,
  update, resolve_given,
}
use gitwise.Milestone as Milestones

or_unknown_db : (o : Option (List ℕ)) (db : Db) → (or_unknown o db).1 ≡ db
or_unknown_db none db = refl
or_unknown_db (some ids) db = refl

resolve_names_db :
    (fails : Faults) (names : List String) (db : Db) → (resolve_names fails names db).1 ≡ db
resolve_names_db fails [] db = refl
resolve_names_db fails (x ∷ xs) db = elim (Bool-cases (fails 0)) [
  | inl f ↦ rw f refl
  | inr f ↦ rw f (or_unknown_db (find_all db.users (x ∷ xs)) db)
]

resolve_assignees_db :
    (fails : Faults) (names : List String) (db : Db) → (resolve_assignees fails names db).1 ≡ db
unfolding resolve_assignees
resolve_assignees_db fails names db = resolve_names_db fails (clean_from [] names) db

resolve_given_db :
    (fails : Faults) (given : Option (List String)) (db : Db)
    → (resolve_given fails given db).1 ≡ db
resolve_given_db fails none db = refl
resolve_given_db fails (some names) db = ground (arith, resolve_assignees_db fails names db)

module _ (fails : Faults) (id now repo author : ℕ) (title : String) (req : CreateIssueRequest)
    (assignees : List ℕ) (db : Db) where
  -- the row that `insert_issue` adds
  abbrev pub added : IssueRow
  added = new_issue id now repo author (next_number repo db.repo_counters) title assignees req

  pub insert_issue_cases :
      ((insert_issue fails id now repo author title req assignees db).1 ≡ db)
      ⊎ ((insert_issue fails id now repo author title req assignees db).1
          ≡ record db { repo_counters = bump_counter repo db.repo_counters })
      ⊎ (((insert_issue fails id now repo author title req assignees db).1 ≡ record db {
        repo_counters = bump_counter repo db.repo_counters;
        issues = db.issues ++ added ∷ [];
      })
          × (dangles db.milestones req.milestone_id ≡ false))
  unfolding insert_issue
  insert_issue_cases = ground arith

pub write_cases :
    (fails : Faults) (now repo number : ℕ) (title : Option String) (req : UpdateIssueRequest)
    (assignees : Option (List ℕ)) (db : Db)
    → ((write fails now repo number title req assignees db).1 ≡ db)
      ⊎ (((write fails now repo number title req assignees db).1 ≡ record db {
        issues = update_where (is_issue repo number) (assign now title assignees req) db.issues;
      })
          × (dangles db.milestones req.milestone_id ≡ false))
unfolding write
write_cases fails now repo number title req assignees db =
    elim (Option-cases (find (is_issue repo number) db.issues)) [
      | inl e ↦ ground arith
      | inr (i, e) ↦ ground arith
    ]

pub insert_pull-issues :
    (fails : Faults) (id now repo author : ℕ) (title : String) (req : CreatePullRequestRequest)
    (diff : DiffResponse) (db : Db)
    → ((insert_pull fails id now repo author title req diff db).1.issues ≡ db.issues)
      × ((insert_pull fails id now repo author title req diff db).1.milestones ≡ db.milestones)
unfolding insert_pull
insert_pull-issues fails id now repo author title req diff db = ground arith

module _ (fails : Faults) (db : Db) where
  pub create_milestone_cases :
      (id now repo : ℕ) (req : Milestones.CreateMilestoneRequest)
      → ((Milestones.create fails id now repo req db).1 ≡ db)
        ⊎ ((m : MilestoneRow) × ((Milestones.create fails id now repo req db).1
              ≡ record db { milestones = db.milestones ++ m ∷ [] }))
  unfolding Milestones.create
  create_milestone_cases id now repo req =
      let m : MilestoneRow = record {
        id = id;
        repo_id = repo;
        title = trim_space req.title;
        description = req.description;
        due_date = req.due_date;
        status = "open";
        created_at = now;
      } in
      let either : ((Milestones.create fails id now repo req db).1 ≡ db)
          ⊎ ((Milestones.create fails id now repo req db).1
              ≡ record db { milestones = db.milestones ++ m ∷ [] }) =
        ground arith in
      elim either [ inl e ↦ inl e | inr e ↦ inr (m, e) ]

  pub update_milestone_cases :
      (repo id : ℕ) (req : Milestones.UpdateMilestoneRequest)
      → ((Milestones.update fails repo id req db).1 ≡ db)
        ⊎ ((Milestones.update fails repo id req db).1 ≡ record db {
          milestones =
              update_where
                (Milestones.is_milestone repo id)
                (Milestones.assign (trimmed req.title) req)
                db.milestones;
        })
  unfolding Milestones.update Milestones.write Milestones.get_by_id
  update_milestone_cases repo id req =
      elim (Option-cases (find (Milestones.is_milestone repo id) db.milestones)) [
        | inl e ↦ elim (Option-cases (find (λ m. m.id == id) db.milestones)) [
          | inl f ↦ inl (ground arith)
          | inr (n, f) ↦ inl (ground arith)
        ]
        | inr (m, e) ↦ elim (Option-cases (find (λ m. m.id == id) db.milestones)) [
          | inl f ↦ ground arith
          | inr (n, f) ↦ ground arith
        ]
      ]

  pub delete_milestone_cases :
      (repo id : ℕ)
      → ((Milestones.delete fails repo id db).1 ≡ db)
        ⊎ ((Milestones.delete fails repo id db).1 ≡ record db {
          issues =
              update_where
                (λ i. Milestones.refers_to id i && i.repo_id == repo)
                Milestones.unset
                db.issues;
        })
        ⊎ ((Milestones.delete fails repo id db).1 ≡ record db {
          milestones = keep (λ m. not (Milestones.is_milestone repo id m)) db.milestones;
          issues = update_where (Milestones.refers_to id) Milestones.unset (
              update_where
                (λ i. Milestones.refers_to id i && i.repo_id == repo)
                Milestones.unset
                db.issues);
        })
  unfolding Milestones.delete
  delete_milestone_cases repo id = ground arith

module _ (fails : Faults) (db : Db) where
  -- `Create` does nothing, or what `insert_issue` does
  pub create_issue_cases :
      (id now repo author : ℕ) (req : CreateIssueRequest)
      → ((create fails id now repo author req db).1 ≡ db)
        ⊎ ((assignees : List ℕ) × ((create fails id now repo author req db).1
              ≡ (insert_issue
                  (after 1 fails)
                  id
                  now
                  repo
                  author
                  (trim_space req.title)
                  req
                  assignees
                  db).1))
  unfolding create
  create_issue_cases id now repo author req =
      let kept = resolve_assignees_db fails req.assignees db in
      elim (Result-cases (resolve_assignees fails req.assignees db).0) [
        | inr (x, e) ↦ inl (ground (arith, kept))
        | inl (ids, e) ↦
            let either : ((create fails id now repo author req db).1 ≡ db)
                ⊎ ((create fails id now repo author req db).1
                    ≡ (insert_issue (after 1 fails) id now repo author (trim_space req.title) req
                        ids db).1) =
              ground (arith, kept) in
            elim either [ inl f ↦ inl f | inr f ↦ inr (ids, f) ]
      ]

  -- `Update` does nothing, or what `write` does, with a valid status
  pub update_issue_cases :
      (now repo number : ℕ) (req : UpdateIssueRequest)
      → ((update fails now repo number req db).1 ≡ db)
        ⊎ ((assignees : Option (List ℕ)) × (refuses (λ s. not (is_valid_issue_status s)) req.status
              ≡ false)
            × ((update fails now repo number req db).1
                ≡ (write (after 1 fails) now repo number (trimmed req.title) req assignees db).1))
  unfolding update
  update_issue_cases now repo number req =
      let kept = resolve_given_db fails req.assignees db in
      elim (Result-cases (resolve_given fails req.assignees db).0) [
        | inr (x, e) ↦ inl (ground (arith, kept))
        | inl (ids, e) ↦
            let either : ((update fails now repo number req db).1 ≡ db)
                ⊎ ((refuses (λ s. not (is_valid_issue_status s)) req.status ≡ false)
                    × ((update fails now repo number req db).1
                        ≡ (write (after 1 fails) now repo number (trimmed req.title) req ids
                            db).1)) =
              ground (arith, kept) in
            elim either [ inl f ↦ inl f | inr f ↦ inr (ids, f.0, f.1) ]
      ]
