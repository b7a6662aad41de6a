-- ===== src/Page/Walk.antt =====
-- A client that follows the cursors from page to page.
use gitwise.Prelude.{
  ℕ, zero, suc, ◌≤◌, ◌<◌, String, true, false, Option, none, some, List, [], ◌∷◌, ◌++◌, ◌≡◌, refl,
  ap, ◌∙◌, sym, subst, arith, ltb, if◌then◌else◌, str_eq, keep, take, length, if_false, All,
  Bool-cases, inl, inr,
}
use gitwise.Db.Order.{order_by}
use gitwise.Page.{
  Codec, Direction, is_in_view, sorts_before, last_key, view, cut, page, next_cursor, read_cursor,
}
use gitwise.Page.Sorted.{
  key, IsStrict, AreNamed, order_by-IsStrict, order_by-keep, keep_all, keep-beyond,
}
use gitwise.Page.Cursor.{IsFaithful, read_cursor-next_cursor}

-- A request with a cursor gets rows and the next cursor. The client asks until there is none, or an
-- error comes; `fuel` bounds the number of requests.
abbrev pub follow : {A : Type 0} → (String → List A) → Option (List A × String) → List A
follow next none = []
follow next (some r) = r.0 ++ (if str_eq r.1 "" then [] else next r.1)

pub walk : {A : Type 0} → (String → Option (List A × String)) → ℕ → String → List A
walk fetch zero cursor = []
walk fetch (suc fuel) cursor = follow (walk fetch fuel) (fetch cursor)

module _ {A : Type 0} where
  append_assoc : (xs ys zs : List A) → (xs ++ ys) ++ zs ≡ xs ++ (ys ++ zs)
  append_assoc [] ys zs = refl
  append_assoc (x ∷ xs) ys zs = ap (◌∷◌ x) (append_assoc xs ys zs)

  append-nil : (xs : List A) → xs ++ [] ≡ xs
  append-nil [] = refl
  append-nil (x ∷ xs) = ap (◌∷◌ x) (append-nil xs)

  -- a list with more than `n` elements, cut behind the one at `n`
  split_at :
      (n : ℕ) (xs : List A)
      → n < length xs
      → (front : List A) × (a : A) × (rest : List A) × (xs ≡ front ++ a ∷ rest)
        × (take (suc n) xs ≡ front ++ a ∷ [])
  split_at n [] h = absurd (omega arith)
  split_at zero (x ∷ xs) h = ([], x, xs, refl, refl)
  split_at (suc n) (x ∷ xs) h =
      let (front, a, rest, e, f) = split_at n xs (omega arith) in
      (x ∷ front, a, rest, ap (◌∷◌ x) e, ap (◌∷◌ x) f)

  take-take : (n : ℕ) (xs : List A) → take n (take (suc n) xs) ≡ take n xs
  take-take zero xs = refl
  take-take (suc n) [] = refl
  take-take (suc n) (x ∷ xs) = ap (◌∷◌ x) (take-take n xs)

  take_all : (n : ℕ) (xs : List A) → length (take (suc n) xs) ≤ n → take (suc n) xs ≡ xs
  take_all n [] h = refl
  take_all zero (x ∷ xs) h = absurd (omega arith)
  take_all (suc n) (x ∷ xs) h = ap (◌∷◌ x) (take_all n xs (omega arith))

  length-take-le : (n : ℕ) (xs : List A) → length (take n xs) ≤ length xs
  length-take-le zero xs = omega arith
  length-take-le (suc n) [] = omega arith
  length-take-le (suc n) (x ∷ xs) = omega (arith, length-take-le n xs)

  length-split : (front : List A) (a : A) (rest : List A) → length rest < length (front ++ a ∷ rest)
  length-split [] a rest = omega arith
  length-split (x ∷ front) a rest = omega (arith, length-split front a rest)

  split_page :
      (limit : ℕ) (xs : List A)
      → 0 < limit
      → limit < length xs
      → (front : List A) × (a : A) × (rest : List A) × (xs ≡ front ++ a ∷ rest)
        × (take limit xs ≡ front ++ a ∷ [])
  split_page zero xs pos h = absurd (omega arith)
  split_page (suc n) xs pos h = split_at n xs (omega arith)

  walk_step :
      (fetch : String → Option (List A × String)) (fuel : ℕ) (s k : String) (got : List A)
      → fetch s ≡ some (got, k)
      → walk fetch (suc fuel) s ≡ got ++ (if str_eq k "" then [] else walk fetch fuel k)
  unfolding walk
  walk_step fetch fuel s k got e = ap (follow (walk fetch fuel)) e

module _ {A : Type 0} (time id : A → ℕ) (d : Direction) where
  last_key-append :
      (front : List A) (a : A) → last_key time id d (front ++ a ∷ []) ≡ some (key time id a)
  last_key-append [] a = refl
  last_key-append (x ∷ []) a = refl
  last_key-append (x ∷ y ∷ front) a = last_key-append (y ∷ front) a

  module _ (codec : Codec) (law : IsFaithful codec) (limit : ℕ) (rows : List A) where
    abbrev answer : List A × Option (ℕ × ℕ) → Option (List A × String)
    answer p = some (p.0, next_cursor codec p.1)

    abbrev pub respond : Option (Option (ℕ × ℕ)) → Option (List A × String)
    respond none = none
    respond (some c) = answer (page time id d limit c rows)

    -- the answer to a request with this cursor
    abbrev pub fetch : String → Option (List A × String)
    fetch s = respond (read_cursor codec s)

    abbrev sorted : List A
    sorted = order_by (sorts_before time id d) rows

    -- what is in view of a cursor, without the limit
    abbrev seen : Option (ℕ × ℕ) → List A
    seen c = order_by (sorts_before time id d) (keep (is_in_view time id d c) rows)

    module _ (named : AreNamed time id d rows) where
      sorted-IsStrict : IsStrict time id d sorted
      sorted-IsStrict = order_by-IsStrict time id d rows named

      -- beyond a row, the rows after it are in view
      seen_after :
          (before : List A) (a : A) (rest : List A)
          → sorted ≡ before ++ a ∷ rest
          → seen (some (key time id a)) ≡ rest
      seen_after before a rest e =
          order_by-keep time id d (is_in_view time id d (some (key time id a))) rows named
          ∙ (ap (keep (is_in_view time id d (some (key time id a)))) e
              ∙ keep-beyond time id d before a rest (subst (IsStrict time id d) e sorted-IsStrict))

      fetch_eq :
          (s : String) (c : Option (ℕ × ℕ)) (rest : List A)
          → read_cursor codec s ≡ some c
          → seen c ≡ rest
          → fetch s ≡ answer (cut time id d limit (take (suc limit) rest))
      unfolding page view
      fetch_eq s c rest r v =
          ap respond r ∙ ap (λ l. answer (cut time id d limit (take (suc limit) l))) v

      -- the cut behind the row `a`
      more_eq :
          (front : List A) (a : A) (after : List A)
          → take limit (front ++ a ∷ after) ≡ front ++ a ∷ []
          → ltb limit (length (take (suc limit) (front ++ a ∷ after))) ≡ true
          → cut time id d limit (take (suc limit) (front ++ a ∷ after))
            ≡ (front ++ a ∷ [], some (key time id a))
      more_eq front a after taken more =
          rw (more, take-take limit (front ++ a ∷ after), taken, last_key-append front a) refl

      next_eq :
          (fuel : ℕ) (front : List A) (a : A) (after : List A)
          → walk fetch fuel (next_cursor codec (some (key time id a))) ≡ after
          → (front ++ a ∷ [])
              ++ (if str_eq (next_cursor codec (some (key time id a))) ""
                  then []
                  else walk fetch fuel (next_cursor codec (some (key time id a))))
            ≡ front ++ a ∷ after
      next_eq fuel front a after e =
          ap (λ l. (front ++ a ∷ []) ++ l)
            (if_false _ _ (read_cursor-next_cursor codec law (key time id a)).0 ∙ e)
          ∙ append_assoc front (a ∷ []) after

      turn :
          (fuel : ℕ) (s : String) (rest front : List A) (a : A) (after : List A)
          → rest ≡ front ++ a ∷ after
          → take limit rest ≡ front ++ a ∷ []
          → ltb limit (length (take (suc limit) rest)) ≡ true
          → fetch s ≡ answer (cut time id d limit (take (suc limit) rest))
          → walk fetch fuel (next_cursor codec (some (key time id a))) ≡ after
          → walk fetch (suc fuel) s ≡ rest
      turn fuel s rest front a after whole taken more got later =
          walk_step fetch fuel s (next_cursor codec (some (key time id a))) (front ++ a ∷ []) (
            got
            ∙ ap answer (
                ap (λ l. cut time id d limit (take (suc limit) l)) whole
                ∙ more_eq front a after (subst (λ l. take limit l ≡ front ++ a ∷ []) whole taken)
                    (subst (λ l. ltb limit (length (take (suc limit) l)) ≡ true) whole more)))
          ∙ (next_eq fuel front a after later ∙ sym whole)

      last_turn :
          (fuel : ℕ) (s : String) (rest : List A)
          → ltb limit (length (take (suc limit) rest)) ≡ false
          → fetch s ≡ answer (cut time id d limit (take (suc limit) rest))
          → walk fetch (suc fuel) s ≡ rest
      last_turn fuel s rest done got =
          let whole : take (suc limit) rest ≡ rest = take_all limit rest (ground arith) in
          let answered : answer (cut time id d limit (take (suc limit) rest)) ≡ some (rest, "") =
            rw (done, whole) refl in
          walk_step fetch fuel s "" rest (got ∙ answered) ∙ append-nil rest

      -- the walk from the row behind the page, by the induction hypothesis `walks`
      onward :
          (n : ℕ) (bs rs front : List A) (a : A) (after : List A)
          → rs ≡ front ++ a ∷ after
          → sorted ≡ bs ++ rs
          → length rs ≤ n
          → ((s : String) (c : Option (ℕ × ℕ)) (before rest : List A)
              → read_cursor codec s ≡ some c
              → sorted ≡ before ++ rest
              → seen c ≡ rest
              → length rest < n
              → walk fetch n s ≡ rest)
          → walk fetch n (next_cursor codec (some (key time id a))) ≡ after
      onward n bs rs front a after whole e f walks =
          let split : sorted ≡ (bs ++ front) ++ a ∷ after =
            e ∙ (ap (λ l. bs ++ l) whole ∙ sym (append_assoc bs front (a ∷ after))) in
          walks (next_cursor codec (some (key time id a))) (some (key time id a))
            ((bs ++ front) ++ a ∷ []) after (read_cursor-next_cursor codec law (key time id a)).1
            (split ∙ sym (append_assoc (bs ++ front) (a ∷ []) after))
            (seen_after (bs ++ front) a after split)
            (omega (arith, length-split front a after, ap length whole))

      walk_from :
          (fuel : ℕ) (s : String) (c : Option (ℕ × ℕ)) (before rest : List A)
          → 0 < limit
          → read_cursor codec s ≡ some c
          → sorted ≡ before ++ rest
          → seen c ≡ rest
          → length rest < fuel
          → walk fetch fuel s ≡ rest
      walk_from zero s c before rest pos r e v f = absurd (omega arith)
      walk_from (suc fuel) s c before rest pos r e v f =
          let got = fetch_eq s c rest r v in
          elim (Bool-cases (ltb limit (length (take (suc limit) rest)))) [
            | inl more ↦
                let longer : limit < length rest =
                  ground (arith, length-take-le (suc limit) rest) in
                let (front, a, after, whole, taken) = split_page limit rest pos longer in
                turn fuel s rest front a after whole taken more got (
                  onward fuel before rest front a after whole e (omega arith)
                    (λ s' c' before' rest' r' e' v' f'.
                      walk_from fuel s' c' before' rest' pos r' e' v' f'))
            | inr done ↦ last_turn fuel s rest done got
          ]

      -- A client that starts without a cursor and follows the next cursors gets every row once, in
      -- the order of the listing, for any limit above 0, if it may ask more often than there are rows.
      pub walk-order_by :
          (fuel : ℕ) → 0 < limit → length sorted < fuel → walk fetch fuel "" ≡ sorted
      walk-order_by fuel pos f =
          walk_from fuel "" none [] sorted pos refl refl
            (ap (order_by (sorts_before time id d))
              (keep_all time id d (λ a. true) rows (all_true rows)))
            f
        where
          all_true : (bs : List A) → All (λ (b : A). true ≡ true) bs
          all_true [] = tt
          all_true (b ∷ bs) = (refl, all_true bs)
