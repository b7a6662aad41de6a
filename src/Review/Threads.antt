-- ===== src/Review/Threads.antt =====
-- The map of threads that `countThreads` fills, and what a review means for later calls.
use gitwise.Prelude.{
  ℕ, String, Bool, true, false, ◌&&◌, ◌||◌, Option, none, some, List, [], ◌∷◌, ◌++◌, ◌≡◌, ◌≢◌, sym,
  subst, arith, ◌==◌, if◌then◌else◌, str_eq, str_eq_iff, any, find, keep, Option-cases, ◌⊎◌, inl,
  inr,
}
use gitwise.Action.{Faults, after, ok, err}
use gitwise.Db.{Db, PullRow, ReviewRow, InlineComment}
use gitwise.Review.Summary.{
  Threads, lookup, note, note_named, collect, internal, update_review_summary,
}
use gitwise.Review.{
  CreateReviewRequest, Review, marshal_comments, in_thread, is_null, resolve_thread, create,
}
use gitwise.Pull.Merge.{approval_count, is_approval}

lookup-note :
    (t : String) (c : InlineComment) (m : Threads)
    → lookup t (note c m) ≡ (
        if str_eq c.thread_id t
        then some (c.resolved || elim (lookup t m) [ none ↦ false | some v ↦ v ])
        else lookup t m)
unfolding lookup note
lookup-note t c [] = ground arith
lookup-note t c ((k, v) ∷ m) =
    ground
      (arith, lookup-note t c m, str_eq_iff k t, str_eq_iff k c.thread_id, str_eq_iff c.thread_id t)

abbrev pub resolves : String → InlineComment → Bool
resolves t c = in_thread t c && c.resolved

abbrev value : Option Bool → Bool
value none = false
value (some v) = v

abbrev known : Option Bool → Bool
known none = false
known (some v) = true

lookup-collect :
    (t : String) (cs : List InlineComment) (m : Threads)
    → t ≢ ""
    → lookup t (collect m cs) ≡ (
        if known (lookup t m) || any (in_thread t) cs
        then some (value (lookup t m) || any (resolves t) cs)
        else none)
unfolding collect
lookup-collect t [] m h = ground arith
lookup-collect t (c ∷ cs) m h = ground (
  arith,
  lookup-collect t cs (note_named c m) h,
  lookup-note t c m,
  str_eq_iff c.thread_id t,
  str_eq_iff c.thread_id "",
)

-- Of the comments `cs`, `countThreads` keeps a thread that has a name when a comment belongs to
-- it, and has it resolved when one of these comments is.
thread_resolved :
    (t : String) (cs : List InlineComment)
    → t ≢ ""
    → lookup t (collect [] cs) ≡ (if any (in_thread t) cs then some (any (resolves t) cs) else none)
unfolding lookup
thread_resolved t cs h = lookup-collect t cs [] h

module _ (fails : Faults) (now pr : ℕ) (db : Db) where
  pub update_review_summary-reviews : (update_review_summary fails now pr db).1.reviews ≡ db.reviews
  unfolding update_review_summary
  update_review_summary-reviews = ground arith

any-append-last :
    {A : Type 0} (p : A → Bool) (xs : List A) (a : A) → p a ≡ true → any p (xs ++ a ∷ []) ≡ true
any-append-last p [] a h = ground arith
any-append-last p (x ∷ xs) a h = ground (arith, any-append-last p xs a h)

abbrev made : ℕ → ℕ → ℕ → ℕ → CreateReviewRequest → ReviewRow
made id now pr author req = record {
  id = id;
  pr_id = pr;
  author_id = author;
  kind = req.kind;
  body = req.body;
  comments = marshal_comments req.comments;
  submitted_at = now;
}

module _ (fails : Faults) (id now pr author : ℕ) (req : CreateReviewRequest) (db : Db) where
  kept_by_summary :
      (update_review_summary
        (after 3 fails)
        now
        pr
        (record db { reviews = db.reviews ++ made id now pr author req ∷ [] })).1.reviews
      ≡ db.reviews ++ made id now pr author req ∷ []
  kept_by_summary =
      update_review_summary-reviews (after 3 fails) now pr
        (record db { reviews = db.reviews ++ made id now pr author req ∷ [] })

  create_cases :
      ((create fails id now pr author req db).1.reviews ≡ db.reviews)
      ⊎ ((create fails id now pr author req db).1.reviews
          ≡ db.reviews ++ made id now pr author req ∷ [])
  unfolding create
  create_cases = elim (Option-cases (find (λ (p : PullRow). p.id == pr) db.pull_requests)) [
    | inl e ↦ inl (ground arith)
    | inr (p, e) ↦ ground (arith, kept_by_summary)
  ]

  create_stored :
      (r : Review)
      → (create fails id now pr author req db).0 ≡ ok r
      → (create fails id now pr author req db).1.reviews
        ≡ db.reviews ++ made id now pr author req ∷ []
  unfolding create
  create_stored r h = elim (Option-cases (find (λ (p : PullRow). p.id == pr) db.pull_requests)) [
    | inl e ↦ absurd (ground arith)
    | inr (p, e) ↦ ground (arith, kept_by_summary)
  ]

abbrev has_null : ℕ → ReviewRow → Bool
has_null pr r = r.pr_id == pr && is_null r.comments

resolve_thread_null :
    (fails : Faults) (now pr : ℕ) (t : String) (b : Bool) (db : Db)
    → any (has_null pr) db.reviews ≡ true
    → resolve_thread fails now pr t b db ≡ (err internal, db)
unfolding resolve_thread
resolve_thread_null fails now pr t b db h = ground arith

-- When `Create` succeeds with a request that leaves its comments out, a call of `ResolveThread` on
-- the database it leaves, for any thread of this pull request, is an error and changes nothing.
pub create_blocks_resolve_thread :
    (fails later : Faults) (id now pr author at : ℕ) (req : CreateReviewRequest) (r : Review)
    (t : String) (b : Bool) (db : Db)
    → req.comments ≡ none
    → (create fails id now pr author req db).0 ≡ ok r
    → let db' = (create fails id now pr author req db).1 in
      resolve_thread later at pr t b db' ≡ (err internal, db')
create_blocks_resolve_thread fails later id now pr author at req r t b db n h =
    let stored = create_stored fails id now pr author req db r h in
    let null : has_null pr (made id now pr author req) ≡ true = ground arith in
    resolve_thread_null later at pr t b (create fails id now pr author req db).1 (
      subst (λ rows. any (has_null pr) rows ≡ true) (sym stored)
        (any-append-last (has_null pr) db.reviews (made id now pr author req) null))

keep-append-false :
    {A : Type 0} (p : A → Bool) (xs : List A) (a : A)
    → p a ≡ false
    → keep p (xs ++ a ∷ []) ≡ keep p xs
keep-append-false p [] a h = ground arith
keep-append-false p (x ∷ xs) a h = ground (arith, keep-append-false p xs a h)

-- A review that is not an approval, one that requests changes included, leaves the number of
-- approvals that `Merge` counts for any pull request as it was.
create_keeps_approvals :
    (fails : Faults) (id now pr author : ℕ) (req : CreateReviewRequest) (db : Db) (other : ℕ)
    → req.kind ≢ "approval"
    → approval_count other (create fails id now pr author req db).1 ≡ approval_count other db
create_keeps_approvals fails id now pr author req db other h =
    let rejected : is_approval other (made id now pr author req) ≡ false =
      ground (arith, str_eq_iff req.kind "approval") in
    let same =
      keep-append-false (is_approval other) db.reviews (made id now pr author req) rejected in
    elim (create_cases fails id now pr author req db) [ inl e ↦ cc | inr e ↦ cc ]
