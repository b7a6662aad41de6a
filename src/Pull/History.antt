-- ===== src/Pull/History.antt =====
-- Any calls of `Create`, `Update` and `Merge`, in any order and with any failures.
use mathlib.Core.List.{Memᴰ}
use gitwise.Prelude.{
  ℕ, String, Bool, true, false, Option, none, some, List, [], ◌∷◌, ◌++◌, ◌≡◌, ◌≢◌, refl, sym, subst,
  ap, ◌∙◌, inl, inr, arith, if_true, if_false, any-eq-false, find, str_eq, update_where, All-append,
  Bool-cases,
}
use gitwise.Text.{trim_space}
use gitwise.Action.{Faults, Result-cases}
use gitwise.Db.{Db, PullRow, UserRow}
use gitwise.Git.{Git, DiffResponse}
use gitwise.Pull.{World, PullRequest, is_pull, find_pull, joined, with_author, user_of}
use gitwise.Pull.Requests.{
  CreatePullRequestRequest, UpdatePullRequestRequest, clashes, insert_pull, create, update, assign,
}
use gitwise.Pull.Merge.{MergePullRequestRequest, merge, set_merged, strategy_of}
use gitwise.Pull.Outcome.{merge_ok, merge_err}
use gitwise.Pull.Keys.{
  Inv, IsKeyed, IsFresh, IsKeyed-append, IsKeyed-update, IsFresh-update, IsFresh-bump_counter,
  next_number-bump_counter,
}
use gitwise.Pull.Lifecycle.{keeps_merged, create_cases, insert_pull_cases, inserted, update_cases}

pub data Call : Type 0 where
  creates : Faults → ℕ → ℕ → ℕ → ℕ → String → String → CreatePullRequestRequest → Call
  updates : Faults → ℕ → ℕ → ℕ → UpdatePullRequestRequest → Call
  merges : Faults → ℕ → ℕ → ℕ → ℕ → String → String → MergePullRequestRequest → Call

module _ (g : Git) (collate : String → String → Bool) where
  -- the state after a call, whatever it returns
  abbrev pub step : World g → Call → World g
  step w (creates fails id now repo author owner name req) =
      (create g fails id now repo author owner name req w).1
  step w (updates fails now repo number req) = record w {
    db = (update fails now repo number req w.db).1;
  }
  step w (merges fails now repo number merger owner name req) =
      (merge g collate fails now repo number merger owner name req w).1

  pub run : World g → List Call → World g
  run w [] = w
  run w (c ∷ cs) = run (step w c) cs

insert_pull-Inv :
    (fails : Faults) (id now repo author : ℕ) (title : String) (req : CreatePullRequestRequest)
    (diff : DiffResponse) (db : Db)
    → Inv db
    → Inv (insert_pull fails id now repo author title req diff db).1
insert_pull-Inv fails id now repo author title req diff db v =
    let db' : Db = (insert_pull fails id now repo author title req diff db).1 in
    let new = inserted fails id now repo author title req diff db in
    let build =
      λ (ps : List PullRow) (cs : List gitwise.Db.CounterRow) (e : db'.pull_requests ≡ ps)
          (f : db'.repo_counters ≡ cs) (k : IsKeyed ps) (h : IsFresh cs ps).
        let r : Inv db' = record { keyed = subst IsKeyed (sym e) k; fresh = rw (e, f) h } in r in
    elim (insert_pull_cases fails id now repo author title req diff db) [
      | inl (e, f) ↦ build _ _ e f v.keyed v.fresh
      | inr rest ↦ elim rest [
        | inl (e, f) ↦ build _ _ e f v.keyed (IsFresh-bump_counter repo _ _ v.fresh)
        | inr (e, f, c) ↦ build _ _ e f (IsKeyed-append new db.pull_requests v.keyed c) (
            All-append _ _ _ (IsFresh-bump_counter repo _ _ v.fresh)
              (ground (arith, next_number-bump_counter repo repo db.repo_counters), tt))
      ]
    ]

module _ (g : Git) (collate : String → String → Bool) where
  pub step-Inv : (w : World g) (c : Call) → Inv w.db → Inv (step g collate w c).db
  step-Inv w (creates fails id now repo author owner name req) v =
      elim (create_cases g fails id now repo author owner name req w) [
        | inl e ↦ subst Inv (sym e) v
        | inr (diff, e) ↦
            subst Inv (sym e)
              (insert_pull-Inv fails id now repo author (trim_space req.title) req diff w.db v)
      ]
  step-Inv w (updates fails now repo number req) v =
      elim (update_cases fails now repo number req w.db) [
        | inl e ↦ subst Inv (sym e) v
        | inr (s, e) ↦
            let same = λ (p : PullRow).
              let r : ((assign now req p).id ≡ p.id)
                  × ((assign now req p).repo_id ≡ p.repo_id)
                  × ((assign now req p).number ≡ p.number) =
                (refl, refl, refl) in
              r in
            subst Inv (sym e) (record {
              keyed = IsKeyed-update _ _ same _ v.keyed;
              fresh = IsFresh-update _ _ same _ _ v.fresh;
            })
      ]
  step-Inv w (merges fails now repo number merger owner name req) v =
      elim (Result-cases (merge g collate fails now repo number merger owner name req w).0) [
        | inl (r, e) ↦
            let (_, _, (_, _, _, _, _, f)) =
              merge_ok g collate fails now repo number merger owner name req w r e in
            let same = λ (p : PullRow).
              let r : ((set_merged now merger (strategy_of req.strategy) p).id ≡ p.id)
                  × ((set_merged now merger (strategy_of req.strategy) p).repo_id ≡ p.repo_id)
                  × ((set_merged now merger (strategy_of req.strategy) p).number ≡ p.number) =
                (refl, refl, refl) in
              r in
            subst Inv (sym f) (record {
              keyed = IsKeyed-update _ _ same _ v.keyed;
              fresh = IsFresh-update _ _ same _ _ v.fresh;
            })
        | inr (x, e) ↦
            subst Inv
              (sym (merge_err g collate fails now repo number merger owner name req w x e).0) v
      ]

  -- Over any history of calls of Create, Update and Merge, failing ones included, the identifiers of pull requests stay
  -- different, so do the numbers within a repository, and each number stays below the next one
  -- that the repository's counter gives out.
  pub run-Inv : (w : World g) (cs : List Call) → Inv w.db → Inv (run g collate w cs).db
  unfolding run
  run-Inv w [] v = v
  run-Inv w (c ∷ cs) v = run-Inv (step g collate w c) cs (step-Inv w c v)

same_key_clashes :
    (repo number : ℕ) (r p : PullRow)
    → is_pull repo number r ≡ true
    → is_pull repo number p ≡ true
    → clashes r p ≢ false
same_key_clashes repo number r p e i h = ground arith

-- a row with a repository and number that is listed is the row that is found under them
find_keyed :
    (repo number : ℕ) (p q : PullRow) (ps : List PullRow)
    → IsKeyed ps
    → find (is_pull repo number) ps ≡ some q
    → is_pull repo number p ≡ true
    → Memᴰ p ps
    → p.status ≡ q.status
find_keyed repo number p q [] v f i m = elim m [ ]
find_keyed repo number p q (r ∷ ps) v f i (Memᴰ.head e) =
    let here : is_pull repo number r ≡ true =
      subst (λ (x : PullRow). is_pull repo number x ≡ true) e i in
    let found : some r ≡ some q = sym (if_true _ _ here) ∙ f in
    let same : r ≡ q = cc in ap (λ (x : PullRow). x.status) (e ∙ same)
find_keyed repo number p q (r ∷ ps) v f i (Memᴰ.tail m) =
    elim (Bool-cases (is_pull repo number r)) [
      | inl e ↦
          let apart : clashes r p ≡ false = any-eq-false (clashes r) ps p v.0 m in
          absurd (same_key_clashes repo number r p e i apart)
      | inr e ↦ find_keyed repo number p q ps v.1 (sym (if_false _ _ e) ∙ f) i m
    ]

merged_ne_open : ◌≢◌ {A = String} "merged" "open"
merged_ne_open e =
    let refused : false ≡ true = subst (λ (x : String). str_eq x "open" ≡ true) (sym e) refl in cc

-- a change of the found row, which is not merged, leaves the merged rows as they are
keeps_others :
    (q : PullRow → Bool) (f : PullRow → PullRow) (p : PullRow) (ps : List PullRow)
    → q p ≡ false
    → Memᴰ p ps
    → Memᴰ p (update_where q f ps)
keeps_others q f p [] h m = elim m [ ]
keeps_others q f p (r ∷ ps) h (Memᴰ.head e) =
    Memᴰ.head (e ∙ sym (if_false _ _ (subst (λ (x : PullRow). q x ≡ false) e h)))
keeps_others q f p (r ∷ ps) h (Memᴰ.tail m) = Memᴰ.tail (keeps_others q f p ps h m)

Mem-append : (p : PullRow) (ps qs : List PullRow) → Memᴰ p ps → Memᴰ p (ps ++ qs)
Mem-append p [] qs m = elim m [ ]
Mem-append p (r ∷ ps) qs (Memᴰ.head e) = Memᴰ.head e
Mem-append p (r ∷ ps) qs (Memᴰ.tail m) = Memᴰ.tail (Mem-append p ps qs m)

-- the row of a pull request that the SELECT found
joined-row :
    (p : PullRow) (pr : PullRequest) (u : Option UserRow)
    → joined p u ≡ some pr
    → some p ≡ some pr.row
joined-row p pr none e = cc
joined-row p pr (some u) e =
    ap
      (λ (o : Option PullRequest).
        let r : Option PullRow = elim o [ none ↦ some p | some x ↦ some x.row ] in r)
      e

find_pull-row :
    (repo number : ℕ) (db : Db) (pr : PullRequest)
    → find_pull repo number db ≡ some pr
    → find (is_pull repo number) db.pull_requests ≡ some pr.row
find_pull-row repo number db pr h = go (find (is_pull repo number) db.pull_requests) h
  where
    go : (o : Option PullRow) → with_author db o ≡ some pr → o ≡ some pr.row
    go none e = cc
    go (some p) e = joined-row p pr (user_of p.author_id db) e

-- no call of the three changes a merged row
module _ (g : Git) (collate : String → String → Bool) (p : PullRow)
    (done : p.status ≡ "merged") where
  pub step_keeps_merged :
      (w : World g) (c : Call)
      → Inv w.db
      → Memᴰ p w.db.pull_requests
      → Memᴰ p (step g collate w c).db.pull_requests
  step_keeps_merged w (creates fails id now repo author owner name req) v m =
      elim (create_cases g fails id now repo author owner name req w) [
        | inl e ↦ subst (λ (d : Db). Memᴰ p d.pull_requests) (sym e) m
        | inr (diff, e) ↦
            subst (λ (d : Db). Memᴰ p d.pull_requests) (sym e)
              (elim (insert_pull_cases fails id now repo author (trim_space req.title) req diff
                w.db) [
                  | inl (same, _) ↦ subst (λ l. Memᴰ p l) (sym same) m
                  | inr rest ↦ elim rest [
                    | inl (same, _) ↦ subst (λ l. Memᴰ p l) (sym same) m
                    | inr (longer, _, _) ↦ subst (λ l. Memᴰ p l) (sym longer) (Mem-append p _ _ m)
                  ]
                ])
      ]
  step_keeps_merged w (updates fails now repo number req) v m =
      elim (update_cases fails now repo number req w.db) [
        | inl e ↦ subst (λ (d : Db). Memᴰ p d.pull_requests) (sym e) m
        | inr (s, e) ↦
            subst (λ (d : Db). Memᴰ p d.pull_requests) (sym e)
              (keeps_merged repo number now req _ p done m)
      ]
  step_keeps_merged w (merges fails now repo number merger owner name req) v m =
      elim (Result-cases (merge g collate fails now repo number merger owner name req w).0) [
        | inl (r, e) ↦
            let (_, pr, (_, _, found, mergeable, _, f)) =
              merge_ok g collate fails now repo number merger owner name req w r e in
            subst (λ (d : Db). Memᴰ p d.pull_requests) (sym f)
              (keeps_others (is_pull repo number) _ p _ (other pr found mergeable.0) m)
        | inr (x, e) ↦
            subst (λ (d : Db). Memᴰ p d.pull_requests)
              (sym (merge_err g collate fails now repo number merger owner name req w x e).0) m
      ]
    where
      other :
          (pr : PullRequest)
          → find_pull repo number w.db ≡ some pr
          → pr.row.status ≡ "open"
          → is_pull repo number p ≡ false
      other pr found o = elim (Bool-cases (is_pull repo number p)) [
        | inl i ↦
            let same =
              find_keyed repo number p pr.row _ v.keyed (find_pull-row repo number w.db pr found) i
                m in
            let clash : "merged" ≡ "open" = sym done ∙ same ∙ o in absurd (merged_ne_open clash)
        | inr i ↦ i
      ]
