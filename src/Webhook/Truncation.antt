-- ===== src/Webhook/Truncation.antt =====
-- How long the texts of a payload are after `truncatePayload`.
use Prim.Native.Char.{Char, code, len_utf8, len_utf8_def, width}
use Prim.Native.Nat.{compare, Ordering}
use gitwise.Prelude.{
  ℕ, zero, suc, ◌+◌, ◌-◌, ◌*◌, ◌≤◌, String, Bool, true, Option, none, some, ◌≡◌, refl, sym, subst,
  inl, inr, arith, str_eq, if_true, if_false, ap, ◌∙◌, Option-cases, Bool-cases, str_eq_refl,
}
use Prim.Native.String.len
use package.text.Mathlib.TextPositions.{len-append}
use gitwise.Text.{byte_len}
use gitwise.Field.{is_given}
use gitwise.Webhook.Payload.{
  Json, null, bool, num, text, arr, obj, Items, nil, cons, Fields, end, field, marks, cut, cap_text,
  cap_value, cap_items, cap_strings, put, get, truncate_payload,
}

width_le : (a b d : Ordering) → (1 ≤ width a b d) × (width a b d ≤ 4)
width_le Ordering.lt b d = omega arith
width_le Ordering.eq Ordering.lt d = omega arith
width_le Ordering.eq Ordering.eq Ordering.lt = omega arith
width_le Ordering.eq Ordering.eq Ordering.eq = omega arith
width_le Ordering.eq Ordering.eq Ordering.gt = omega arith
width_le Ordering.eq Ordering.gt Ordering.lt = omega arith
width_le Ordering.eq Ordering.gt Ordering.eq = omega arith
width_le Ordering.eq Ordering.gt Ordering.gt = omega arith
width_le Ordering.gt Ordering.lt d = omega arith
width_le Ordering.gt Ordering.eq Ordering.lt = omega arith
width_le Ordering.gt Ordering.eq Ordering.eq = omega arith
width_le Ordering.gt Ordering.eq Ordering.gt = omega arith
width_le Ordering.gt Ordering.gt Ordering.lt = omega arith
width_le Ordering.gt Ordering.gt Ordering.eq = omega arith
width_le Ordering.gt Ordering.gt Ordering.gt = omega arith

len_utf8-le : (c : Char) → (1 ≤ len_utf8 c) × (len_utf8 c ≤ 4)
len_utf8-le c =
    subst (λ k. (1 ≤ k) × (k ≤ 4)) (sym (len_utf8_def c))
      (width_le (compare (code c) 128) (compare (code c) 2048) (compare (code c) 65536))

len-marks : (n : ℕ) → byte_len (marks n) ≡ 3 * n
unfolding marks
len-marks zero = refl
len-marks (suc n) = omega (arith, len-append "�" (marks n), len-marks n)

len-cut : (n : ℕ) (s : String) → byte_len (cut n s) ≤ n + 6
unfolding cut
len-cut n (String.[]) = omega arith
len-cut n (String.◌∷◌ c s) = ground (
  arith,
  len-marks n,
  len_utf8-le c,
  len-cut (n - len_utf8 c) s,
  len.cons c (cut (n - len_utf8 c) s),
)

cap_text-le : (s : String) → byte_len (cap_text s) ≤ 1044
cap_text-le s = ground (arith, len-append (cut 1_024 s) "…[truncated]", len-cut 1_024 s)

-- the texts of a map, of the maps in it and of the maps in its arrays have at most `n` bytes
unfoldable mutual
  pub IsShortValue : ℕ → Json → Type 0
  IsShortValue n null = Unit
  IsShortValue n (bool b) = Unit
  IsShortValue n (num z) = Unit
  IsShortValue n (text s) = byte_len s ≤ n
  IsShortValue n (arr xs) = AreShortMaps n xs
  IsShortValue n (obj m) = IsShort n m

  pub AreShortMaps : ℕ → Items → Type 0
  AreShortMaps n nil = Unit
  AreShortMaps n (cons null xs) = AreShortMaps n xs
  AreShortMaps n (cons (bool b) xs) = AreShortMaps n xs
  AreShortMaps n (cons (num z) xs) = AreShortMaps n xs
  AreShortMaps n (cons (text s) xs) = AreShortMaps n xs
  AreShortMaps n (cons (arr ys) xs) = AreShortMaps n xs
  AreShortMaps n (cons (obj m) xs) = IsShort n m × AreShortMaps n xs

  pub IsShort : ℕ → Fields → Type 0
  IsShort n end = Unit
  IsShort n (field k v m) = IsShortValue n v × IsShort n m

mutual
  unfolding IsShortValue AreShortMaps IsShort cap_value cap_items cap_strings

  cap_value-IsShortValue : (v : Json) → IsShortValue 1_044 (cap_value v)
  cap_value-IsShortValue null = tt
  cap_value-IsShortValue (bool b) = tt
  cap_value-IsShortValue (num z) = tt
  cap_value-IsShortValue (text s) = cap_text-le s
  cap_value-IsShortValue (arr xs) = cap_items-AreShortMaps xs
  cap_value-IsShortValue (obj m) = cap_strings-IsShort m

  cap_items-AreShortMaps : (xs : Items) → AreShortMaps 1_044 (cap_items xs)
  cap_items-AreShortMaps nil = tt
  cap_items-AreShortMaps (cons null xs) = cap_items-AreShortMaps xs
  cap_items-AreShortMaps (cons (bool b) xs) = cap_items-AreShortMaps xs
  cap_items-AreShortMaps (cons (num z) xs) = cap_items-AreShortMaps xs
  cap_items-AreShortMaps (cons (text s) xs) = cap_items-AreShortMaps xs
  cap_items-AreShortMaps (cons (arr ys) xs) = cap_items-AreShortMaps xs
  cap_items-AreShortMaps (cons (obj m) xs) = (cap_strings-IsShort m, cap_items-AreShortMaps xs)

  cap_strings-IsShort : (m : Fields) → IsShort 1_044 (cap_strings m)
  cap_strings-IsShort end = tt
  cap_strings-IsShort (field k v m) = (cap_value-IsShortValue v, cap_strings-IsShort m)

get-put : (k : String) (v : Json) (m : Fields) → get k (put k v m) ≡ some v
unfolding get put
get-put k v end = ground (arith, str_eq_refl k)
get-put k v (field j w m) = ground (arith, get-put k v m, str_eq_refl k)

get-cap_strings :
    (k : String) (b : Bool) (m : Fields)
    → get k m ≡ some (bool b)
    → get k (cap_strings m) ≡ some (bool b)
unfolding get cap_strings cap_value
get-cap_strings k b end h = cc
get-cap_strings k b (field j v m) h = elim (Bool-cases (str_eq j k)) [
  | inl e ↦
      let q : some v ≡ some (bool b) = sym (if_true (some v) (get k m) e) ∙ h in
      if_true (some (cap_value v)) (get k (cap_strings m)) e
      ∙ ap (λ o. elim o [ none ↦ none | some x ↦ some (cap_value x) ]) q
  | inr e ↦
      if_false (some (cap_value v)) (get k (cap_strings m)) e
      ∙ get-cap_strings k b m (sym (if_false (some v) (get k m) e) ∙ h)
]

-- A payload that is too long is sent as a map with the mark `truncated`, whose texts, those of the maps
-- in it and of the maps in their arrays included, have at most 1,044 bytes, if the map can be
-- marshalled: 1,024 bytes, up to six for a character that was cut, and fourteen that say so.
pub truncate_payload-IsShort :
    (marshal : Json → Option String) (payload : Fields) (b : String)
    → ((m : Json) → is_given (marshal m) ≡ true)
    → truncate_payload marshal payload ≡ b
    → (m : Fields) × (marshal (obj m) ≡ some b)
      × IsShort 1_044 m
      × (get "truncated" m ≡ some (bool true))
unfolding truncate_payload
truncate_payload-IsShort marshal payload b total h =
    let m = cap_strings (put "truncated" (bool true) payload) in
    elim (Option-cases (marshal (obj m))) [
      | inl e ↦ absurd (ground (arith, total (obj m)))
      | inr (c, e) ↦ (
        m,
        ground arith,
        cap_strings-IsShort (put "truncated" (bool true) payload),
        get-cap_strings "truncated" true (put "truncated" (bool true) payload)
            (get-put "truncated" (bool true) payload),
      )
    ]
