-- ===== src/Review/Resolve.antt =====
-- What `ResolveThread` has set when it returns without an error.
use gitwise.Prelude.{
  ℕ, String, Bool, true, false, List, [], ◌∷◌, ◌≡◌, sym, subst, arith, if◌then◌else◌, str_eq_iff,
  any, update_where, Bool-cases, inl, inr, All,
}
use gitwise.Action.{Faults, after, ok}
use gitwise.Db.{Db, ReviewRow, InlineComment, CommentsJson, null, array}
use gitwise.Review.Summary.{unmarshal_comments, update_review_summary}
use gitwise.Review.Threads.{update_review_summary-reviews}
use gitwise.Review.{in_thread, has_thread, set_resolved, is_affected, resolve_in, resolve_thread}

-- a comment of the thread has the flag
abbrev pub HasFlag : String → Bool → InlineComment → Type 0
HasFlag t b c = c.thread_id ≡ t → c.resolved ≡ b

abbrev pub AreSet : ℕ → String → Bool → ReviewRow → Type 0
AreSet pr t b r = r.pr_id ≡ pr → All (HasFlag t b) (unmarshal_comments r.comments)

set_here :
    (t : String) (b : Bool) (c : InlineComment)
    → HasFlag t b (if in_thread t c then set_resolved b c else c)
set_here t b c e = ground (arith, str_eq_iff c.thread_id t)

update_where-set :
    (t : String) (b : Bool) (cs : List InlineComment)
    → All (HasFlag t b) (update_where (in_thread t) (set_resolved b) cs)
update_where-set t b [] = tt
update_where-set t b (c ∷ cs) = (set_here t b c, update_where-set t b cs)

any-false-set :
    (t : String) (b : Bool) (cs : List InlineComment)
    → any (in_thread t) cs ≡ false
    → All (HasFlag t b) cs
any-false-set t b [] h = tt
any-false-set t b (c ∷ cs) h =
    (λ e. ground (arith, str_eq_iff c.thread_id t), any-false-set t b cs (ground arith))

resolve_in-set :
    (t : String) (b : Bool) (json : CommentsJson)
    → All (HasFlag t b) (unmarshal_comments (resolve_in t b json))
resolve_in-set t b null = tt
resolve_in-set t b (array cs) = update_where-set t b cs

no_thread-set :
    (t : String) (b : Bool) (json : CommentsJson)
    → has_thread t json ≡ false
    → All (HasFlag t b) (unmarshal_comments json)
no_thread-set t b null h = tt
no_thread-set t b (array cs) h = any-false-set t b cs h

abbrev resolved : String → Bool → ReviewRow → ReviewRow
resolved t b r = record r { comments = resolve_in t b r.comments }

row-set :
    (pr : ℕ) (t : String) (b : Bool) (r : ReviewRow)
    → AreSet pr t b (if is_affected pr t r then resolved t b r else r)
row-set pr t b r = elim (Bool-cases (is_affected pr t r)) [
  | inl e ↦ ground (arith, resolve_in-set t b r.comments)
  | inr e ↦ ground (arith, no_thread-set t b r.comments)
]

rows-set :
    (pr : ℕ) (t : String) (b : Bool) (rs : List ReviewRow)
    → All (AreSet pr t b) (update_where (is_affected pr t) (resolved t b) rs)
rows-set pr t b [] = tt
rows-set pr t b (r ∷ rs) = (row-set pr t b r, rows-set pr t b rs)

module _ (fails : Faults) (now pr : ℕ) (t : String) (b : Bool) (db : Db) where
  resolve_thread_rows :
      (resolve_thread fails now pr t b db).0 ≡ ok tt
      → (resolve_thread fails now pr t b db).1.reviews
        ≡ update_where (is_affected pr t) (resolved t b) db.reviews
  unfolding resolve_thread
  resolve_thread_rows h =
      let rows = update_where (is_affected pr t) (resolved t b) db.reviews in
      let kept : (update_review_summary (after 1 fails) now pr
            (record db { reviews = rows })).1.reviews
          ≡ rows =
        update_review_summary-reviews (after 1 fails) now pr (record db { reviews = rows }) in
      ground (arith, kept)

  -- When `ResolveThread` returns no error, a review of this pull request has a comment of the thread
  -- there, and every comment of the thread in the reviews of the pull request has the flag.
  pub resolve_thread-AreSet :
      (resolve_thread fails now pr t b db).0 ≡ ok tt
      → (any (is_affected pr t) db.reviews ≡ true)
        × All (AreSet pr t b) (resolve_thread fails now pr t b db).1.reviews
  unfolding resolve_thread
  resolve_thread-AreSet h = (
    ground arith,
    subst (λ rows. All (AreSet pr t b) rows) (sym (resolve_thread_rows h))
        (rows-set pr t b db.reviews),
  )
