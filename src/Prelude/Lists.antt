-- ===== src/Prelude/Lists.antt =====
-- Lists as the program uses slices and as a table holds rows: Boolean filters, searches, lengths.
use Prim.Native.Nat.{ℕ, suc, ◌+◌, ◌≤◌}
use mathlib.Core.Path.{◌≡◌, refl, sym, subst}
use mathlib.Core.Logic.{inl, inr}
use mathlib.Core.Bool.{Bool, true, false, ◌&&◌, ◌||◌}
use mathlib.Core.Option.{Option, none, some}
use mathlib.Core.List.{List, [], ◌∷◌, ◌++◌, Memᴰ}
use native.Mathlib.Omega.{arith}
use gitwise.Prelude.Tests.{if◌then◌else◌, if_true, if_false, Bool-cases}

module _ {ℓ} {A : Type ℓ} where
  abbrev pub length : List A → ℕ
  length [] = 0
  length (x ∷ xs) = suc (length xs)

  -- the rows that pass a test
  abbrev pub keep : (A → Bool) → List A → List A
  keep p [] = []
  keep p (x ∷ xs) = let rest = keep p xs in if p x then x ∷ rest else rest

  -- the first row that passes a test
  abbrev pub find : (A → Bool) → List A → Option A
  find p [] = none
  find p (x ∷ xs) = if p x then some x else find p xs

  abbrev pub any : (A → Bool) → List A → Bool
  any p [] = false
  any p (x ∷ xs) = p x || any p xs

  abbrev pub all : (A → Bool) → List A → Bool
  all p [] = true
  all p (x ∷ xs) = p x && all p xs

  -- rewrite the rows that pass a test
  abbrev pub update_where : (A → Bool) → (A → A) → List A → List A
  update_where p f [] = []
  update_where p f (x ∷ xs) = (if p x then f x else x) ∷ update_where p f xs

  abbrev pub is_empty : List A → Bool
  is_empty [] = true
  is_empty (x ∷ xs) = false

  abbrev pub head? : List A → Option A
  head? [] = none
  head? (x ∷ xs) = some x

  abbrev pub take : ℕ → List A → List A
  take ℕ.zero xs = []
  take (suc n) [] = []
  take (suc n) (x ∷ xs) = x ∷ take n xs

  pub length-append : (xs ys : List A) → length (xs ++ ys) ≡ length xs + length ys
  length-append [] ys = omega arith
  length-append (x ∷ xs) ys = omega (arith, length-append xs ys)

  pub length-keep-le : (p : A → Bool) (xs : List A) → length (keep p xs) ≤ length xs
  length-keep-le p [] = omega arith
  length-keep-le p (x ∷ xs) = ground (arith, length-keep-le p xs)

  pub find_sound : (p : A → Bool) (xs : List A) (a : A) → find p xs ≡ some a → p a ≡ true
  find_sound p [] a h = cc
  find_sound p (x ∷ xs) a h = ground (arith, find_sound p xs a)

  pub find-Mem : (p : A → Bool) (xs : List A) (a : A) → find p xs ≡ some a → Memᴰ a xs
  find-Mem p [] a h = cc
  find-Mem p (x ∷ xs) a h = elim (Bool-cases (p x)) [
    | inl here ↦ let e : a ≡ x = ground arith in Memᴰ.head e
    | inr later ↦ let e : find p xs ≡ some a = ground arith in Memᴰ.tail (find-Mem p xs a e)
  ]

  pub keep-Mem :
      (p : A → Bool) (xs : List A) (a : A) → Memᴰ a (keep p xs) → Memᴰ a xs × (p a ≡ true)
  keep-Mem p [] a m = elim m [ ]
  keep-Mem p (x ∷ xs) a m = elim (Bool-cases (p x)) [
    | inl here ↦ elim (subst (λ l. Memᴰ a l) (if_true _ _ here) m) [
      | Memᴰ.head e ↦ (Memᴰ.head e, subst (λ b. p b ≡ true) (sym e) here)
      | Memᴰ.tail n ↦ let r = keep-Mem p xs a n in (Memᴰ.tail r.0, r.1)
    ]
    | inr there ↦
        let r = keep-Mem p xs a (subst (λ l. Memᴰ a l) (if_false _ _ there) m) in
        (Memᴰ.tail r.0, r.1)
  ]

  pub Mem-keep : (p : A → Bool) (xs : List A) (a : A) → Memᴰ a xs → p a ≡ true → Memᴰ a (keep p xs)
  Mem-keep p [] a m h = elim m [ ]
  Mem-keep p (x ∷ xs) a (Memᴰ.head e) h =
      subst (λ l. Memᴰ a l) (sym (if_true _ _ (subst (λ b. p b ≡ true) e h))) (Memᴰ.head e)
  Mem-keep p (x ∷ xs) a (Memᴰ.tail m) h = elim (Bool-cases (p x)) [
    | inl e ↦ subst (λ l. Memᴰ a l) (sym (if_true _ _ e)) (Memᴰ.tail (Mem-keep p xs a m h))
    | inr e ↦ subst (λ l. Memᴰ a l) (sym (if_false _ _ e)) (Mem-keep p xs a m h)
  ]

  pub find-eq-none :
      (p : A → Bool) (xs : List A) (a : A) → find p xs ≡ none → Memᴰ a xs → p a ≡ false
  find-eq-none p [] a h m = elim m [ ]
  find-eq-none p (x ∷ xs) a h (Memᴰ.head e) =
      subst (λ b. p b ≡ false) (sym e) (let t : p x ≡ false = ground arith in t)
  find-eq-none p (x ∷ xs) a h (Memᴰ.tail m) = find-eq-none p xs a (ground arith) m

  pub any-eq-false :
      (p : A → Bool) (xs : List A) (a : A) → any p xs ≡ false → Memᴰ a xs → p a ≡ false
  any-eq-false p [] a h m = elim m [ ]
  any-eq-false p (x ∷ xs) a h (Memᴰ.head e) =
      subst (λ b. p b ≡ false) (sym e) (let t : p x ≡ false = ground arith in t)
  any-eq-false p (x ∷ xs) a h (Memᴰ.tail m) = any-eq-false p xs a (ground arith) m

  pub any_of_find : (p : A → Bool) (xs : List A) (a : A) → find p xs ≡ some a → any p xs ≡ true
  any_of_find p [] a h = cc
  any_of_find p (x ∷ xs) a h = ground (arith, any_of_find p xs a)

  pub find-append :
      (p : A → Bool) (xs ys : List A) → find p xs ≡ none → find p (xs ++ ys) ≡ find p ys
  find-append p [] ys h = refl
  find-append p (x ∷ xs) ys h = ground (arith, find-append p xs ys)

module _ {ℓ κ} {A : Type ℓ} (P : A → Type κ) where
  -- every element satisfies `P`
  abbrev pub All : List A → Type κ
  All [] = Unit
  All (x ∷ xs) = P x × All xs

  pub All-append : (xs ys : List A) → All xs → All ys → All (xs ++ ys)
  All-append [] ys h k = k
  All-append (x ∷ xs) ys (p, h) k = (p, All-append xs ys h k)

  pub All-Mem : (a : A) (xs : List A) → All xs → Memᴰ a xs → P a
  All-Mem a [] h m = elim m [ ]
  All-Mem a (x ∷ xs) h (Memᴰ.head e) = subst P (sym e) h.0
  All-Mem a (x ∷ xs) h (Memᴰ.tail m) = All-Mem a xs h.1 m

  pub All-keep : (q : A → Bool) (xs : List A) → All xs → All (keep q xs)
  All-keep q [] h = tt
  All-keep q (x ∷ xs) (p, h) = ground (arith, All-keep q xs h)

  pub All-update_where :
      (q : A → Bool) (f : A → A) (xs : List A)
      → ((a : A) → q a ≡ true → P a → P (f a))
      → All xs
      → All (update_where q f xs)
  All-update_where q f [] s h = tt
  All-update_where q f (x ∷ xs) s (p, h) = ground (arith, s x, All-update_where q f xs s h)

  pub All-find : (q : A → Bool) (xs : List A) (a : A) → All xs → find q xs ≡ some a → P a
  All-find q [] a h e = cc
  All-find q (x ∷ xs) a (p, h) e = elim (Bool-cases (q x)) [
    | inl here ↦ ground arith
    | inr later ↦ All-find q xs a h (ground arith)
  ]
