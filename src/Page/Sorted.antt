-- ===== src/Page/Sorted.antt =====
-- The rows of a listing in the order of their keys, which are all different.
use gitwise.Prelude.{
  ℕ, Bool, true, false, List, [], ◌∷◌, ◌++◌, ◌≡◌, refl, arith, ◌==◌, if◌then◌else◌, keep, All,
  All-keep, Bool-cases, inl, inr,
}
use gitwise.Db.Order.{place, order_by, place-All, order_by-All}
use gitwise.Page.{Direction, ascending, descending, nil_uuid, is_beyond, sorts_before}

module _ {A : Type 0} (time id : A → ℕ) where
  abbrev pub key : A → ℕ × ℕ
  key a = (time a, id a)

  abbrev pub IsNamed : A → Type 0
  IsNamed a = (id a == nil_uuid) ≡ false

  abbrev pub beyond : Direction → A → A → Bool
  beyond d a b = is_beyond time id d (key a) b

  beyond_trans :
      (d : Direction) (a b c : A)
      → IsNamed a
      → IsNamed b
      → beyond d a b ≡ true
      → beyond d b c ≡ true
      → beyond d a c ≡ true
  beyond_trans ascending a b c n m h k = ground arith
  beyond_trans descending a b c n m h k = ground arith

  pub beyond_asym :
      (d : Direction) (a b : A) → IsNamed a → IsNamed b → beyond d a b ≡ true → beyond d b a ≡ false
  beyond_asym ascending a b n m h = ground arith
  beyond_asym descending a b n m h = ground arith

  pub beyond_self : (d : Direction) (a : A) → IsNamed a → beyond d a a ≡ false
  beyond_self ascending a n = ground arith
  beyond_self descending a n = ground arith

  sorts_beyond :
      (d : Direction) (a b : A)
      → IsNamed a
      → (id b == id a) ≡ false
      → sorts_before time id d a b ≡ true
      → beyond d a b ≡ true
  sorts_beyond ascending a b n m h = ground arith
  sorts_beyond descending a b n m h = ground arith

  stays_beyond :
      (d : Direction) (a b : A)
      → IsNamed b
      → (id b == id a) ≡ false
      → sorts_before time id d a b ≡ false
      → beyond d b a ≡ true
  stays_beyond ascending a b n m h = ground arith
  stays_beyond descending a b n m h = ground arith

  beyond_sorts :
      (d : Direction) (a b : A)
      → IsNamed a
      → beyond d a b ≡ true
      → sorts_before time id d a b ≡ true
  beyond_sorts ascending a b n h = ground arith
  beyond_sorts descending a b n h = ground arith

  module _ (d : Direction) where
    -- each row is beyond those in front of it
    abbrev pub IsStrict : List A → Type 0
    IsStrict [] = Unit
    IsStrict (a ∷ rest) = IsNamed a × All (λ b. beyond d a b ≡ true) rest × IsStrict rest

    -- the identifiers are all different, and none is the nil UUID
    abbrev pub AreNamed : List A → Type 0
    AreNamed [] = Unit
    AreNamed (a ∷ rest) = IsNamed a × All (λ b. (id b == id a) ≡ false) rest × AreNamed rest

    All-beyond :
        (a b : A) (rest : List A)
        → IsNamed a
        → IsNamed b
        → beyond d a b ≡ true
        → All (λ c. beyond d b c ≡ true) rest
        → All (λ c. beyond d a c ≡ true) rest
    All-beyond a b [] n m h k = tt
    All-beyond a b (c ∷ rest) n m h k =
        (beyond_trans d a b c n m h k.0, All-beyond a b rest n m h k.1)

    place-IsStrict :
        (a : A) (rest : List A)
        → IsNamed a
        → All (λ b. (id b == id a) ≡ false) rest
        → IsStrict rest
        → IsStrict (place (sorts_before time id d) a rest)
    unfolding place
    place-IsStrict a [] n u v = (n, tt, tt)
    place-IsStrict a (b ∷ rest) n u v = elim (Bool-cases (sorts_before time id d a b)) [
      | inl e ↦
          let h = sorts_beyond d a b n u.0 e in rw e (n, (h, All-beyond a b rest n v.0 h v.1), v)
      | inr e ↦ rw e (
        v.0,
        place-All (sorts_before time id d) (λ c. beyond d b c ≡ true) a rest
            (stays_beyond d a b v.0 u.0 e) v.1,
        place-IsStrict a rest n u.1 v.2,
      )
    ]

    pub order_by-IsStrict :
        (rows : List A) → AreNamed rows → IsStrict (order_by (sorts_before time id d) rows)
    unfolding order_by
    order_by-IsStrict [] v = tt
    order_by-IsStrict (a ∷ rows) v =
        place-IsStrict a (order_by (sorts_before time id d) rows) v.0
          (order_by-All (sorts_before time id d) (λ b. (id b == id a) ≡ false) rows v.1)
          (order_by-IsStrict rows v.2)

    place_first :
        (a : A) (rest : List A)
        → All (λ b. sorts_before time id d a b ≡ true) rest
        → place (sorts_before time id d) a rest ≡ a ∷ rest
    unfolding place
    place_first a [] h = refl
    place_first a (b ∷ rest) h = rw h.0 refl

    All-sorts :
        (a : A) (rest : List A)
        → IsNamed a
        → All (λ b. beyond d a b ≡ true) rest
        → All (λ b. sorts_before time id d a b ≡ true) rest
    All-sorts a [] n h = tt
    All-sorts a (b ∷ rest) n h = (beyond_sorts d a b n h.0, All-sorts a rest n h.1)

    keep-place :
        (p : A → Bool) (a : A) (rest : List A)
        → IsNamed a
        → All (λ b. (id b == id a) ≡ false) rest
        → IsStrict rest
        → keep p (place (sorts_before time id d) a rest)
          ≡ (if p a then place (sorts_before time id d) a (keep p rest) else keep p rest)
    unfolding place
    keep-place p a [] n u v = ground arith
    keep-place p a (b ∷ rest) n u v = elim (Bool-cases (sorts_before time id d a b)) [
      | inl e ↦
          let h = sorts_beyond d a b n u.0 e in
          let all_rest = All-sorts a rest n (All-beyond a b rest n v.0 h v.1) in
          let first : place (sorts_before time id d) a (keep p rest) ≡ a ∷ keep p rest =
            place_first a (keep p rest)
              (All-keep (λ c. sorts_before time id d a c ≡ true) p rest all_rest) in
          ground (arith, first)
      | inr e ↦ ground (arith, keep-place p a rest n u.1 v.2)
    ]

    -- Sorting the rows that pass a test gives the sorted rows that pass it.
    pub order_by-keep :
        (p : A → Bool) (rows : List A)
        → AreNamed rows
        → order_by (sorts_before time id d) (keep p rows)
          ≡ keep p (order_by (sorts_before time id d) rows)
    unfolding order_by
    order_by-keep p [] v = refl
    order_by-keep p (a ∷ rows) v = ground (
      arith,
      order_by-keep p rows v.2,
      keep-place p a (order_by (sorts_before time id d) rows) v.0
          (order_by-All (sorts_before time id d) (λ b. (id b == id a) ≡ false) rows v.1)
          (order_by-IsStrict rows v.2),
    )

    pub keep_all : (p : A → Bool) (rows : List A) → All (λ b. p b ≡ true) rows → keep p rows ≡ rows
    keep_all p [] h = refl
    keep_all p (b ∷ rows) h = ground (arith, keep_all p rows h.1)

    -- In strictly sorted rows, those beyond a row are the ones after it.
    pub keep-beyond :
        (before : List A) (a : A) (rest : List A)
        → IsStrict (before ++ a ∷ rest)
        → keep (beyond d a) (before ++ a ∷ rest) ≡ rest
    keep-beyond [] a rest v = ground (arith, beyond_self d a v.0, keep_all (beyond d a) rest v.1)
    keep-beyond (b ∷ before) a rest v = ground (
      arith,
      keep-beyond before a rest v.2,
      beyond_asym d b a v.0 (named before a rest v.2) (reached before v.1),
    )
      where
        named : (bs : List A) (c : A) (cs : List A) → IsStrict (bs ++ c ∷ cs) → IsNamed c
        named [] c cs w = w.0
        named (x ∷ bs) c cs w = named bs c cs w.2

        reached :
            (bs : List A) → All (λ c. beyond d b c ≡ true) (bs ++ a ∷ rest) → beyond d b a ≡ true
        reached [] w = w.0
        reached (x ∷ bs) w = reached bs w.1
