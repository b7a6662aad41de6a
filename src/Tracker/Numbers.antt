-- ===== src/Tracker/Numbers.antt =====
-- Issues and pull requests take their numbers from one counter for each repository.
use gitwise.Prelude.{
  ℕ, ◌<◌, Bool, false, ◌&&◌, List, [], ◌∷◌, ◌++◌, ◌≡◌, sym, subst, inl, inr, arith, ◌==◌,
  Bool-cases, All,
}
use gitwise.Db.{Db, IssueRow, PullRow, CounterRow}
use gitwise.Pull.Requests.{next_number, bump_counter}
use gitwise.Pull.Keys.{next_number-bump_counter}

-- a repository and a number
abbrev pub Tag : Type 0
Tag = ℕ × ℕ

abbrev pub same_tag : Tag → Tag → Bool
same_tag t u = t.0 == u.0 && t.1 == u.1

abbrev pub issue_tags : List IssueRow → List Tag
issue_tags [] = []
issue_tags (i ∷ is) = (i.repo_id, i.number) ∷ issue_tags is

abbrev pub pull_tags : List PullRow → List Tag
pull_tags [] = []
pull_tags (p ∷ ps) = (p.repo_id, p.number) ∷ pull_tags ps

-- the issues, and then the pull requests
abbrev pub tags : Db → List Tag
tags db = issue_tags db.issues ++ pull_tags db.pull_requests

abbrev pub AreUnique : List Tag → Type 0
AreUnique [] = Unit
AreUnique (t ∷ ts) = All (λ u. same_tag t u ≡ false) ts × AreUnique ts

abbrev pub IsBelow : List CounterRow → Tag → Type 0
IsBelow cs t = t.1 < next_number t.0 cs

-- no number is used twice in a repository, and each is below the next one that the counter gives out
abbrev pub AreNumbered : List CounterRow → List Tag → Type 0
AreNumbered cs ts = AreUnique ts × All (IsBelow cs) ts

All-insert :
    (P : Tag → Type 0) (xs ys : List Tag) (t : Tag)
    → All P (xs ++ ys)
    → P t
    → All P ((xs ++ t ∷ []) ++ ys)
All-insert P [] ys t v h = (h, v)
All-insert P (x ∷ xs) ys t v h = (v.0, All-insert P xs ys t v.1 h)

AreUnique-insert :
    (xs ys : List Tag) (t : Tag)
    → AreUnique (xs ++ ys)
    → All (λ u. same_tag t u ≡ false) (xs ++ ys)
    → AreUnique ((xs ++ t ∷ []) ++ ys)
AreUnique-insert [] ys t v h = (h, v)
AreUnique-insert (x ∷ xs) ys t v h = (
  All-insert (λ u. same_tag x u ≡ false) xs ys t v.0 (ground (arith, h.0)),
  AreUnique-insert xs ys t v.1 h.1,
)

bump_counter-IsBelow :
    (repo : ℕ) (cs : List CounterRow) (ts : List Tag)
    → All (IsBelow cs) ts
    → All (IsBelow (bump_counter repo cs)) ts
bump_counter-IsBelow repo cs [] v = tt
bump_counter-IsBelow repo cs (t ∷ ts) v =
    (ground (arith, next_number-bump_counter t.0 repo cs, v.0), bump_counter-IsBelow repo cs ts v.1)

next_is_new :
    (repo : ℕ) (cs : List CounterRow) (ts : List Tag)
    → All (IsBelow cs) ts
    → All (λ u. same_tag (repo, next_number repo cs) u ≡ false) ts
next_is_new repo cs [] v = tt
next_is_new repo cs (t ∷ ts) v = (apart t v.0, next_is_new repo cs ts v.1)
  where
    apart : (u : Tag) → IsBelow cs u → same_tag (repo, next_number repo cs) u ≡ false
    apart u h = elim (Bool-cases (repo == u.0)) [
      | inl e ↦
          let same : repo ≡ u.0 = ground arith in
          let k : u.1 < next_number repo cs =
            subst (λ (r : ℕ). u.1 < next_number r cs) (sym same) h in
          ground arith
      | inr e ↦ ground arith
    ]

-- what a call does to the numbers: nothing, an advance of a counter, or a new number that was the
-- counter's next
pub data Effect (cs : List CounterRow) (ts : List Tag) (cs' : List CounterRow) (ts' : List Tag)
    : Type 0 where
  keeps : cs' ≡ cs → ts' ≡ ts → Effect cs ts cs' ts'
  bumps : (repo : ℕ) → cs' ≡ bump_counter repo cs → ts' ≡ ts → Effect cs ts cs' ts'
  inserts :
      (repo : ℕ) (xs ys : List Tag)
      → cs' ≡ bump_counter repo cs
      → ts ≡ xs ++ ys
      → ts' ≡ (xs ++ (repo, next_number repo cs) ∷ []) ++ ys
      → Effect cs ts cs' ts'

module _ (cs cs' : List CounterRow) (ts ts' : List Tag) where
  build :
      (ds : List CounterRow) (us : List Tag)
      → cs' ≡ ds
      → ts' ≡ us
      → AreNumbered ds us
      → AreNumbered cs' ts'
  build ds us e f v = rw (e, f) v

  pub Effect-AreNumbered : Effect cs ts cs' ts' → AreNumbered cs ts → AreNumbered cs' ts'
  Effect-AreNumbered (keeps e f) v = build _ _ e f v
  Effect-AreNumbered (bumps repo e f) v = build _ _ e f (v.0, bump_counter-IsBelow repo cs ts v.1)
  Effect-AreNumbered (inserts repo xs ys e s f) v =
      let (unique, below) = subst (AreNumbered cs) s v in
      build _ _ e f (
        AreUnique-insert xs ys (repo, next_number repo cs) unique
            (next_is_new repo cs (xs ++ ys) below),
        All-insert (IsBelow (bump_counter repo cs)) xs ys (repo, next_number repo cs)
            (bump_counter-IsBelow repo cs (xs ++ ys) below)
            (ground (arith, next_number-bump_counter repo repo cs)),
      )
