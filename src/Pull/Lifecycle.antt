-- ===== src/Pull/Lifecycle.antt =====
-- The life of a pull request: which status follows which, over any calls.
use mathlib.Core.List.{Memᴰ}
use gitwise.Prelude.{
  ℕ, String, true, false, Option, none, some, List, [], ◌∷◌, ◌++◌, ◌≡◌, ◌≢◌, sym, subst, ap, ◌∙◌,
  ◌⊎◌, inl, inr, arith, if_true, if_false, str_eq, str_eq_iff, any, find, update_where, Bool-cases,
  Option-cases,
}
use gitwise.Text.{trim_space}
use gitwise.Action.{Faults}
use gitwise.Db.{Db, PullRow}
use gitwise.Git.{Git, DiffResponse}
use gitwise.Pull.{World}
use gitwise.Pull.Requests.{
  CreatePullRequestRequest, UpdatePullRequestRequest, next_number, bump_counter, is_updatable,
  assign, bad_status, or_old, new_pull, clashes, insert_pull, create, update,
}

-- an update leaves every merged row as it is
pub keeps_merged :
    (repo number now : ℕ) (req : UpdatePullRequestRequest) (ps : List PullRow) (p : PullRow)
    → p.status ≡ "merged"
    → Memᴰ p ps
    → Memᴰ p (update_where (is_updatable repo number) (assign now req) ps)
keeps_merged repo number now req [] p h m = elim m [ ]
keeps_merged repo number now req (q ∷ ps) p h (Memᴰ.head e) =
    let unmatched : is_updatable repo number q ≡ false =
      subst (λ (x : PullRow). is_updatable repo number x ≡ false) e
        (ground (arith, str_eq_iff p.status "merged")) in
    rw unmatched (Memᴰ.head e)
keeps_merged repo number now req (q ∷ ps) p h (Memᴰ.tail m) =
    Memᴰ.tail (keeps_merged repo number now req ps p h m)

-- no update sets the status "merged"
assigned_ne_merged :
    (now : ℕ) (req : UpdatePullRequestRequest) (q : PullRow)
    → bad_status req.status ≡ false
    → str_eq q.status "merged" ≡ false
    → (assign now req q).status ≢ "merged"
assigned_ne_merged now req q v u = go req.status v
  where
    go : (o : Option String) → bad_status o ≡ false → or_old o q.status ≢ "merged"
    go none v e = ground (arith, str_eq_iff q.status "merged")
    go (some s) v e =
        let refused : true ≡ false = subst (λ (x : String). bad_status (some x) ≡ false) e v in cc

-- a row that is merged after an update was merged before it
pub made_merged :
    (repo number now : ℕ) (req : UpdatePullRequestRequest) (ps : List PullRow) (p : PullRow)
    → bad_status req.status ≡ false
    → p.status ≡ "merged"
    → Memᴰ p (update_where (is_updatable repo number) (assign now req) ps)
    → Memᴰ p ps
made_merged repo number now req [] p v h m = elim m [ ]
made_merged repo number now req (q ∷ ps) p v h (Memᴰ.head e) =
    elim (Bool-cases (is_updatable repo number q)) [
      | inl u ↦
          let same : p ≡ assign now req q = e ∙ if_true _ _ u in
          absurd (
            assigned_ne_merged now req q v (ground arith)
              (ap (λ (x : PullRow). x.status) (sym same) ∙ h))
      | inr u ↦ Memᴰ.head (e ∙ if_false _ _ u)
    ]
made_merged repo number now req (q ∷ ps) p v h (Memᴰ.tail m) =
    Memᴰ.tail (made_merged repo number now req ps p v h m)

-- `Create`, as far as the database goes, does nothing or what `insert_pull` does
module _ (g : Git) (fails : Faults) (id now repo author : ℕ) (owner name : String)
    (req : CreatePullRequestRequest) (w : World g) where
  pub create_cases :
      ((create g fails id now repo author owner name req w).1.db ≡ w.db)
      ⊎ ((diff : DiffResponse) × ((create g fails id now repo author owner name req w).1.db
            ≡ (insert_pull fails id now repo author (trim_space req.title) req diff w.db).1))
  unfolding create
  create_cases =
      elim (Option-cases
        (g.compare_branches owner name req.target_branch req.source_branch w.disk)) [
          | inl e ↦ inl (ground arith)
          | inr (diff, e) ↦
              let either : ((create g fails id now repo author owner name req w).1.db ≡ w.db)
                  ⊎ ((create g fails id now repo author owner name req w).1.db
                      ≡ (insert_pull fails id now repo author (trim_space req.title) req diff
                          w.db).1) =
                ground arith in
              elim either [ inl p ↦ inl p | inr p ↦ inr (diff, p) ]
        ]

module _ (fails : Faults) (id now repo author : ℕ) (title : String) (req : CreatePullRequestRequest)
    (diff : DiffResponse) (db : Db) where
  -- the row that `insert_pull` adds
  abbrev pub inserted : PullRow
  inserted = new_pull id now repo author (next_number repo db.repo_counters) title req diff

  pub insert_pull_cases :
      let db' = (insert_pull fails id now repo author title req diff db).1 in
      ((db'.pull_requests ≡ db.pull_requests) × (db'.repo_counters ≡ db.repo_counters))
      ⊎ ((db'.pull_requests ≡ db.pull_requests)
          × (db'.repo_counters ≡ bump_counter repo db.repo_counters))
      ⊎ ((db'.pull_requests ≡ db.pull_requests ++ inserted ∷ [])
          × (db'.repo_counters ≡ bump_counter repo db.repo_counters)
          × (any (clashes inserted) db.pull_requests ≡ false))
  unfolding insert_pull
  insert_pull_cases = ground arith

pub update_cases :
    (fails : Faults) (now repo number : ℕ) (req : UpdatePullRequestRequest) (db : Db)
    → let db' = (update fails now repo number req db).1 in
      (db' ≡ db)
      ⊎ ((bad_status req.status ≡ false)
          × (db' ≡ record db {
            pull_requests =
                update_where (is_updatable repo number) (assign now req) db.pull_requests;
          }))
unfolding update
update_cases fails now repo number req db =
    elim (Option-cases (find (is_updatable repo number) db.pull_requests)) [
      | inl e ↦ inl (ground arith)
      | inr (p, e) ↦ ground arith
    ]
