-- ===== src/Pull/Keys.antt =====
-- The keys of pull requests: identifiers and numbers are unique, and numbers come from the counter.
use gitwise.Prelude.{
  ℕ, ◌+◌, ◌<◌, Bool, false, List, [], ◌∷◌, ◌++◌, ◌≡◌, refl, ◌∙◌, inl, inr, arith, ◌==◌,
  if◌then◌else◌, any, update_where, Bool-cases, All, All-update_where,
}
use gitwise.Db.{Db, PullRow, CounterRow}
use gitwise.Pull.Requests.{next_number, bump_counter, clashes}

-- the unique indexes of `pull_requests`
abbrev pub IsKeyed : List PullRow → Type 0
IsKeyed [] = Unit
IsKeyed (p ∷ ps) = (any (clashes p) ps ≡ false) × IsKeyed ps

-- every number is below the next one of its repository
abbrev pub IsFresh : List CounterRow → List PullRow → Type 0
IsFresh cs = All (λ p. p.number < next_number p.repo_id cs)

pub record Inv (db : Db) : Type 0 where
  pub keyed : IsKeyed db.pull_requests
  pub fresh : IsFresh db.repo_counters db.pull_requests

any-clashes-append :
    (p new : PullRow) (ps : List PullRow)
    → any (clashes p) ps ≡ false
    → clashes new p ≡ false
    → any (clashes p) (ps ++ new ∷ []) ≡ false
any-clashes-append p new [] h k = ground arith
any-clashes-append p new (q ∷ ps) h k = ground (arith, any-clashes-append p new ps)

pub IsKeyed-append :
    (new : PullRow) (ps : List PullRow)
    → IsKeyed ps
    → any (clashes new) ps ≡ false
    → IsKeyed (ps ++ new ∷ [])
IsKeyed-append new [] v h = (refl, tt)
IsKeyed-append new (p ∷ ps) v h =
    (any-clashes-append p new ps v.0 (ground arith), IsKeyed-append new ps v.1 (ground arith))

-- a change of rows that keeps their keys
abbrev pub SameKey : (PullRow → PullRow) → Type 0
SameKey f =
    (p : PullRow) → ((f p).id ≡ p.id) × ((f p).repo_id ≡ p.repo_id) × ((f p).number ≡ p.number)

module _ (q : PullRow → Bool) (f : PullRow → PullRow) (same : SameKey f) where
  any-clashes-update :
      (p p' : PullRow) (ps : List PullRow)
      → (p'.id ≡ p.id) × (p'.repo_id ≡ p.repo_id) × (p'.number ≡ p.number)
      → any (clashes p') (update_where q f ps) ≡ any (clashes p) ps
  any-clashes-update p p' [] e = refl
  any-clashes-update p p' (r ∷ ps) e = ground (arith, same r, any-clashes-update p p' ps e)

  pub IsKeyed-update : (ps : List PullRow) → IsKeyed ps → IsKeyed (update_where q f ps)
  IsKeyed-update [] v = tt
  IsKeyed-update (p ∷ ps) v = elim (Bool-cases (q p)) [
    | inl e ↦ rw e (any-clashes-update p (f p) ps (same p) ∙ v.0, IsKeyed-update ps v.1)
    | inr e ↦ rw e (any-clashes-update p p ps (refl, refl, refl) ∙ v.0, IsKeyed-update ps v.1)
  ]

  pub IsFresh-update :
      (cs : List CounterRow) (ps : List PullRow) → IsFresh cs ps → IsFresh cs (update_where q f ps)
  IsFresh-update cs ps =
      All-update_where (λ p. p.number < next_number p.repo_id cs) q f ps
        (λ p e h. let (_, r, n) = same p in rw (r, n) h)

pub next_number-bump_counter :
    (r repo : ℕ) (cs : List CounterRow)
    → next_number r (bump_counter repo cs)
      ≡ (if r == repo then next_number repo cs + 1 else next_number r cs)
next_number-bump_counter r repo [] = ground arith
next_number-bump_counter r repo (c ∷ cs) = ground (arith, next_number-bump_counter r repo cs)

pub IsFresh-bump_counter :
    (repo : ℕ) (cs : List CounterRow) (ps : List PullRow)
    → IsFresh cs ps
    → IsFresh (bump_counter repo cs) ps
IsFresh-bump_counter repo cs [] h = tt
IsFresh-bump_counter repo cs (p ∷ ps) h = (
  ground (arith, next_number-bump_counter p.repo_id repo cs),
  IsFresh-bump_counter repo cs ps h.1,
)
