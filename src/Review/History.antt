-- ===== src/Review/History.antt =====
-- Calls of the services of pull requests (internal/services/pull/service.go) and of reviews
-- (internal/services/review/service.go) in any order, and what becomes of merged pull requests.
use mathlib.Core.List.{Memᴰ}
use gitwise.Prelude.{
  ℕ, String, Bool, Option, some, List, [], ◌∷◌, ◌++◌, ◌≡◌, refl, sym, subst, ap, ◌⊎◌, inl, inr,
  arith, ◌==◌, if◌then◌else◌, find, update_where, Bool-cases, Option-cases,
}
use gitwise.Action.{Faults, after}
use gitwise.Db.{Db, PullRow, ReviewRow, ReviewSummary}
use gitwise.Git.{Git}
use gitwise.Pull.{World}
use gitwise.Pull.Keys.{Inv, IsKeyed-update, IsFresh-update}
use gitwise.Pull.History as Pulls
use gitwise.Pull.History.{step_keeps_merged}
use gitwise.Review.{
  CreateReviewRequest, marshal_comments, is_affected, resolve_in, create, resolve_thread,
}
use gitwise.Review.Summary.{summarize, update_review_summary}

pub data Call : Type 0 where
  on_pulls : Pulls.Call → Call
  creates_review : Faults → ℕ → ℕ → ℕ → ℕ → CreateReviewRequest → Call
  resolves : Faults → ℕ → ℕ → String → Bool → Call

module _ (g : Git) (collate : String → String → Bool) where
  -- the state after a call, whatever it returns
  abbrev pub step : World g → Call → World g
  step w (on_pulls call) = Pulls.step g collate w call
  step w (creates_review fails id now pr author req) = record w {
    db = (create fails id now pr author req w.db).1;
  }
  step w (resolves fails now pr thread flag) = record w {
    db = (resolve_thread fails now pr thread flag w.db).1;
  }

  pub run : World g → List Call → World g
  run w [] = w
  run w (c ∷ cs) = run (step w c) cs

abbrev with_summary : Option ReviewSummary → ℕ → PullRow → PullRow
with_summary s now p = record p { review_summary = s; updated_at = now }

abbrev has_id : ℕ → PullRow → Bool
has_id pr p = p.id == pr

-- the counters stay, and the pull requests do but for the summary of one
Summarizes : Db → Db → Type 0
Summarizes db db' =
    (db'.repo_counters ≡ db.repo_counters)
    × ((db'.pull_requests ≡ db.pull_requests)
        ⊎ ((pr : ℕ) × (s : Option ReviewSummary) × (now : ℕ) × (db'.pull_requests
              ≡ update_where (has_id pr) (with_summary s now) db.pull_requests)))

update_review_summary-Summarizes :
    (fails : Faults) (now pr : ℕ) (db : Db)
    → Summarizes db (update_review_summary fails now pr db).1
unfolding Summarizes update_review_summary
update_review_summary-Summarizes fails now pr db =
    let s : Option ReviewSummary = some (summarize (after 3 fails) pr db) in
    let db' = (update_review_summary fails now pr db).1 in
    let either : (db' ≡ db)
        ⊎ (db' ≡ record db {
          pull_requests = update_where (has_id pr) (with_summary s now) db.pull_requests;
        }) =
      ground arith in
    elim either [ inl e ↦ rw e (refl, inl refl) | inr e ↦ rw e (refl, inr (pr, s, now, refl)) ]

quiet : (db : Db) → Summarizes db db
unfolding Summarizes
quiet db = (refl, inl refl)

-- a summary after a change of the reviews alone
after_reviews :
    (fails : Faults) (now pr : ℕ) (rs : List ReviewRow) (db db' : Db)
    → (db' ≡ db) ⊎ (db' ≡ (update_review_summary fails now pr (record db { reviews = rs })).1)
    → Summarizes db db'
unfolding Summarizes
after_reviews fails now pr rs db db' (inl e) = subst (Summarizes db) (sym e) (quiet db)
after_reviews fails now pr rs db db' (inr e) =
    subst (Summarizes db) (sym e)
      (update_review_summary-Summarizes fails now pr (record db { reviews = rs }))

create-Summarizes :
    (fails : Faults) (id now pr author : ℕ) (req : CreateReviewRequest) (db : Db)
    → Summarizes db (create fails id now pr author req db).1
unfolding create
create-Summarizes fails id now pr author req db =
    let new : ReviewRow = record {
      id = id;
      pr_id = pr;
      author_id = author;
      kind = req.kind;
      body = req.body;
      comments = marshal_comments req.comments;
      submitted_at = now;
    } in
    after_reviews (after 3 fails) now pr (db.reviews ++ new ∷ []) db _
      (elim (Option-cases (find (has_id pr) db.pull_requests)) [
        | inl lost ↦ inl (ground arith)
        | inr (p, found) ↦ ground arith
      ])

resolve_thread-Summarizes :
    (fails : Faults) (now pr : ℕ) (thread : String) (flag : Bool) (db : Db)
    → Summarizes db (resolve_thread fails now pr thread flag db).1
unfolding resolve_thread
resolve_thread-Summarizes fails now pr thread flag db =
    let rs =
      update_where (is_affected pr thread)
        (λ r. record r { comments = resolve_in thread flag r.comments }) db.reviews in
    after_reviews (after 1 fails) now pr rs db _ (ground arith)

module _ (db db' : Db) where
  Summarizes-Inv : Summarizes db db' → Inv db → Inv db'
  unfolding Summarizes
  Summarizes-Inv (c, inl e) v = record { keyed = rw e v.keyed; fresh = rw (c, e) v.fresh }
  Summarizes-Inv (c, inr (pr, s, now, e)) v =
      let same = λ (p : PullRow).
        let r : ((with_summary s now p).id ≡ p.id)
            × ((with_summary s now p).repo_id ≡ p.repo_id)
            × ((with_summary s now p).number ≡ p.number) =
          (refl, refl, refl) in
        r in
      record {
        keyed = rw e (IsKeyed-update _ _ same _ v.keyed);
        fresh = rw (c, e) (IsFresh-update _ _ same _ _ v.fresh);
      }

-- the row is there, but for its summary of reviews and the time of the last change
abbrev pub IsStill : PullRow → List PullRow → Type 0
IsStill p ps = (s : Option ReviewSummary) × (t : ℕ) × Memᴰ (with_summary s t p) ps

Mem-update_where :
    (q : PullRow → Bool) (f : PullRow → PullRow) (p : PullRow) (ps : List PullRow)
    → Memᴰ p ps
    → Memᴰ (if q p then f p else p) (update_where q f ps)
Mem-update_where q f p [] m = elim m [ ]
Mem-update_where q f p (r ∷ ps) (Memᴰ.head e) =
    Memᴰ.head (ap (λ (x : PullRow). if q x then f x else x) e)
Mem-update_where q f p (r ∷ ps) (Memᴰ.tail m) = Memᴰ.tail (Mem-update_where q f p ps m)

module _ (g : Git) (collate : String → String → Bool) where
  step-Inv : (w : World g) (c : Call) → Inv w.db → Inv (step g collate w c).db
  step-Inv w (on_pulls call) v = Pulls.step-Inv g collate w call v
  step-Inv w (creates_review fails id now pr author req) v =
      Summarizes-Inv _ _ (create-Summarizes fails id now pr author req w.db) v
  step-Inv w (resolves fails now pr thread flag) v =
      Summarizes-Inv _ _ (resolve_thread-Summarizes fails now pr thread flag w.db) v

module _ (p : PullRow) where
  Summarizes-IsStill :
      (db db' : Db) → Summarizes db db' → IsStill p db.pull_requests → IsStill p db'.pull_requests
  unfolding Summarizes
  Summarizes-IsStill db db' (_, inl e) m = subst (IsStill p) (sym e) m
  Summarizes-IsStill db db' (_, inr (pr, s, now, e)) (s', t, m) =
      let moved = Mem-update_where (has_id pr) (with_summary s now) _ _ m in
      let still : IsStill p (update_where (has_id pr) (with_summary s now) db.pull_requests) =
        elim (Bool-cases (has_id pr p)) [
          | inl here ↦ (s, now, rw here at moved)
          | inr other ↦ (s', t, rw other at moved)
        ] in
      subst (IsStill p) (sym e) still

  module _ (g : Git) (collate : String → String → Bool) where
    step-IsStill :
        p.status ≡ "merged"
        → (w : World g) (c : Call) → Inv w.db
        → IsStill p w.db.pull_requests
        → IsStill p (step g collate w c).db.pull_requests
    step-IsStill done w (on_pulls call) v (s, t, m) =
        (s, t, step_keeps_merged g collate (with_summary s t p) done w call v m)
    step-IsStill done w (creates_review fails id now pr author req) v m =
        Summarizes-IsStill _ _ (create-Summarizes fails id now pr author req w.db) m
    step-IsStill done w (resolves fails now pr thread flag) v m =
        Summarizes-IsStill _ _ (resolve_thread-Summarizes fails now pr thread flag w.db) m

    run-IsStill :
        p.status ≡ "merged"
        → (w : World g) (cs : List Call) → Inv w.db
        → IsStill p w.db.pull_requests
        → IsStill p (run g collate w cs).db.pull_requests
    unfolding run
    run-IsStill done w [] v m = m
    run-IsStill done w (c ∷ cs) v m =
        run-IsStill done (step g collate w c) cs (step-Inv g collate w c v)
          (step-IsStill done w c v m)

    -- Once merged, a pull request stays as it is over any sequence of calls of Create, Update and Merge
    -- of pull requests and of Create and ResolveThread of reviews, failing ones included: its row keeps
    -- its status, its merger, its title, its branches and all but the summary of its reviews and the time
    -- of the last change. The keys and counters are in order before.
    pub merged_is_final :
        (w : World g) (cs : List Call)
        → p.status ≡ "merged"
        → Inv w.db
        → Memᴰ p w.db.pull_requests
        → IsStill p (run g collate w cs).db.pull_requests
    merged_is_final w cs done v m = run-IsStill done w cs v (p.review_summary, p.updated_at, m)
