-- ===== src/Db/Order.antt =====
-- `ORDER BY` and `LIMIT 1`.
use mathlib.Core.List.{Memᴰ}
use gitwise.Prelude.{
  Bool, true, false, List, [], ◌∷◌, some, none, ◌≡◌, refl, sym, subst, if◌then◌else◌, if_true,
  if_false, head?, All, arith, Bool-cases, inl, inr, ◌⊎◌,
}

module _ {A : Type 0} (before : A → A → Bool) where
  -- insert a row in front of the first row that it does not sort behind
  unfoldable pub place : A → List A → List A
  place a [] = a ∷ []
  place a (b ∷ bs) = let rest = place a bs in if before a b then a ∷ b ∷ bs else b ∷ rest

  -- the rows in the order of `before`
  unfoldable pub order_by : List A → List A
  unfolding place
  order_by [] = []
  order_by (a ∷ bs) = place a (order_by bs)

  pub place-All : (P : A → Type 0) (a : A) (bs : List A) → P a → All P bs → All P (place a bs)
  unfolding place
  place-All P a [] p h = (p, tt)
  place-All P a (b ∷ bs) p h = ground (arith, place-All P a bs p h.1)

  pub order_by-All : (P : A → Type 0) (bs : List A) → All P bs → All P (order_by bs)
  unfolding order_by
  order_by-All P [] h = tt
  order_by-All P (a ∷ bs) h = place-All P a (order_by bs) h.0 (order_by-All P bs h.1)

  place-Mem : (a b : A) (bs : List A) → Memᴰ b (place a bs) → (b ≡ a) ⊎ Memᴰ b bs
  unfolding place
  place-Mem a b [] (Memᴰ.head e) = inl e
  place-Mem a b [] (Memᴰ.tail m) = elim m [ ]
  place-Mem a b (c ∷ bs) m = elim (Bool-cases (before a c)) [
    | inl e ↦ elim (subst (λ l. Memᴰ b l) (if_true _ _ e) m) [
      | Memᴰ.head p ↦ inl p
      | Memᴰ.tail n ↦ inr n
    ]
    | inr e ↦ elim (subst (λ l. Memᴰ b l) (if_false _ _ e) m) [
      | Memᴰ.head p ↦ inr (Memᴰ.head p)
      | Memᴰ.tail n ↦ elim (place-Mem a b bs n) [ inl p ↦ inl p | inr k ↦ inr (Memᴰ.tail k) ]
    ]
  ]

  Mem-place : (a b : A) (bs : List A) → (b ≡ a) ⊎ Memᴰ b bs → Memᴰ b (place a bs)
  unfolding place
  Mem-place a b [] (inl e) = Memᴰ.head e
  Mem-place a b [] (inr m) = elim m [ ]
  Mem-place a b (c ∷ bs) h = elim (Bool-cases (before a c)) [
    | inl e ↦
        subst (λ l. Memᴰ b l) (sym (if_true _ _ e))
          (elim h [ inl p ↦ Memᴰ.head p | inr m ↦ Memᴰ.tail m ])
    | inr e ↦
        subst (λ l. Memᴰ b l) (sym (if_false _ _ e))
          (elim h [
            | inl p ↦ Memᴰ.tail (Mem-place a b bs (inl p))
            | inr m ↦ elim m [
              | Memᴰ.head p ↦ Memᴰ.head p
              | Memᴰ.tail n ↦ Memᴰ.tail (Mem-place a b bs (inr n))
            ]
          ])
  ]

  -- Sorting neither drops a row nor makes one up.
  pub order_by-Mem : (b : A) (bs : List A) → Memᴰ b (order_by bs) → Memᴰ b bs
  unfolding order_by
  order_by-Mem b [] m = m
  order_by-Mem b (a ∷ bs) m = elim (place-Mem a b (order_by bs) m) [
    | inl e ↦ Memᴰ.head e
    | inr n ↦ Memᴰ.tail (order_by-Mem b bs n)
  ]

  pub Mem-order_by : (b : A) (bs : List A) → Memᴰ b bs → Memᴰ b (order_by bs)
  unfolding order_by
  Mem-order_by b [] m = m
  Mem-order_by b (a ∷ bs) (Memᴰ.head e) = Mem-place a b (order_by bs) (inl e)
  Mem-order_by b (a ∷ bs) (Memᴰ.tail m) = Mem-place a b (order_by bs) (inr (Mem-order_by b bs m))

  head?-place :
      (a b : A) (bs : List A) → head? (place a bs) ≡ some b → (b ≡ a) ⊎ (head? bs ≡ some b)
  unfolding place
  head?-place a b [] h = ground arith
  head?-place a b (c ∷ bs) h = ground arith

  -- The row that `LIMIT 1` returns is one of the rows.
  pub head?-order_by-Mem : (b : A) (bs : List A) → head? (order_by bs) ≡ some b → Memᴰ b bs
  unfolding order_by
  head?-order_by-Mem b [] h = cc
  head?-order_by-Mem b (a ∷ bs) h = elim (head?-place a b (order_by bs) h) [
    | inl e ↦ Memᴰ.head e
    | inr e ↦ Memᴰ.tail (head?-order_by-Mem b bs e)
  ]

  place-ne-nil : (a : A) (bs : List A) → head? (place a bs) ≡ none → ⊥
  unfolding place
  place-ne-nil a [] h = cc
  place-ne-nil a (b ∷ bs) h = ground arith

  pub head?-order_by-eq-none : (bs : List A) → head? (order_by bs) ≡ none → bs ≡ []
  unfolding order_by
  head?-order_by-eq-none [] h = refl
  head?-order_by-eq-none (a ∷ bs) h = absurd (place-ne-nil a (order_by bs) h)

  module _ (total : (a b : A) → before a b ≡ false → before b a ≡ true)
      (trans : (a b c : A) → before a b ≡ true → before b c ≡ true → before a c ≡ true) where
    before_self : (a : A) → before a a ≡ true
    before_self a = elim (Bool-cases (before a a)) [ inl e ↦ e | inr e ↦ total a a e ]

    All-before :
        (a b : A) (bs : List A)
        → before a b ≡ true
        → All (λ c. before b c ≡ true) bs
        → All (λ c. before a c ≡ true) bs
    All-before a b [] h k = tt
    All-before a b (c ∷ bs) h k = (trans a b c h k.0, All-before a b bs h k.1)

    place-least :
        (a b : A) (l cs : List A)
        → head? (place a l) ≡ some b
        → (head? l ≡ none → cs ≡ [])
        → ((c : A) → head? l ≡ some c → All (λ d. before c d ≡ true) cs)
        → (before b a ≡ true) × All (λ d. before b d ≡ true) cs
    unfolding place
    place-least a b [] cs h n k =
        let e : a ≡ b = cc in
        (rw e (before_self b), subst (All (λ d. before b d ≡ true)) (sym (n refl)) tt)
    place-least a b (c ∷ l) cs h n k = elim (Bool-cases (before a c)) [
      | inl e ↦
          let p : a ≡ b = ground arith in
          (rw p (before_self b), All-before b c cs (rw p at e) (k c refl))
      | inr e ↦
          let p : c ≡ b = ground arith in
          (rw p at (total a c e), subst (λ x. All (λ d. before x d ≡ true) cs) p (k c refl))
    ]

    -- It sorts before every row.
    pub head?-order_by-least :
        (b : A) (bs : List A) → head? (order_by bs) ≡ some b → All (λ c. before b c ≡ true) bs
    unfolding order_by
    head?-order_by-least b [] h = cc
    head?-order_by-least b (a ∷ bs) h =
        place-least a b (order_by bs) bs h (head?-order_by-eq-none bs)
          (λ c e. head?-order_by-least c bs e)
