-- ===== src/Page.antt =====
-- internal/pagination/cursor.go, and the pages that the listings of issues, pull requests and comments
-- cut with a cursor.
pub mod Sorted
pub mod Cursor
pub mod Walk
use Prim.Native.Char.{Char, code}
use Prim.Native.String
use gitwise.Prelude.{
  ℕ, suc, ◌+◌, ℤ, pos, negsuc, String, Bool, true, false, not, ◌&&◌, ◌||◌, Option, none, some, List,
  [], ◌∷◌, ltb, leb, ◌==◌, if◌then◌else◌, str_eq, keep, take, length,
}
use gitwise.Db.Order.{order_by}

-- encoding/base64, the time format RFC3339Nano and google/uuid; `none` is an error
pub record Codec : Type 0 where
  pub b64_encode : String → String
  pub b64_decode : String → Option String
  pub format_time : ℕ → String
  pub parse_time : String → Option ℕ
  pub uuid_string : ℕ → String
  pub parse_uuid : String → Option ℕ

-- the UUID `uuid.Nil`
abbrev pub nil_uuid : ℕ
nil_uuid = 0

abbrev pub under_first : Char → Option (String × String) → Option (String × String)
under_first c none = none
under_first c (some r) = some (String.◌∷◌ c r.0, r.1)

-- `strings.SplitN(s, "|", 2)`; `none` is a text without a bar
unfoldable pub split_bar : String → Option (String × String)
split_bar (String.[]) = none
split_bar (String.◌∷◌ c s) =
    let rest = split_bar s in if code c == b'|' then some ("", s) else under_first c rest

module _ (codec : Codec) where
  unfoldable pub encode_cursor : ℕ → ℕ → String
  encode_cursor t id =
      codec.b64_encode (String.◌++◌ (codec.format_time t) (String.◌++◌ "|" (codec.uuid_string id)))

  abbrev pub with_time : Option ℕ → Option ℕ → Option (ℕ × ℕ)
  with_time none id = none
  with_time (some t) none = none
  with_time (some t) (some id) = some (t, id)

  -- a text without a bar is an old cursor, a time alone
  abbrev pub parse_parts : String → Option (String × String) → Option (ℕ × ℕ)
  parse_parts raw none = with_time (codec.parse_time raw) (some nil_uuid)
  parse_parts raw (some p) = with_time (codec.parse_time p.0) (codec.parse_uuid p.1)

  abbrev pub decode_raw : Option String → Option (ℕ × ℕ)
  decode_raw none = none
  decode_raw (some raw) = parse_parts raw (split_bar raw)

  unfoldable pub decode_cursor : String → Option (ℕ × ℕ)
  decode_cursor s = decode_raw (codec.b64_decode s)

-- `ORDER BY created_at, id`, both ascending or both descending
pub data Direction : Type 0 where
  ascending descending : Direction

abbrev pub goes_before : Direction → ℕ → ℕ → Bool
goes_before ascending a b = ltb a b
goes_before descending a b = ltb b a

-- `if limit <= 0 || limit > 100 { limit = d }`
abbrev pub clamp_limit : ℕ → ℤ → ℕ
clamp_limit d (negsuc n) = d
clamp_limit d (pos n) = if n == 0 || ltb 100 n then d else n

module _ {A : Type 0} (time id : A → ℕ) (d : Direction) where
  -- the condition that a cursor adds to the WHERE clause
  abbrev pub is_beyond : ℕ × ℕ → A → Bool
  is_beyond c a =
      if c.1 == nil_uuid
      then goes_before d c.0 (time a)
      else goes_before d c.0 (time a) || time a == c.0 && goes_before d c.1 (id a)

  abbrev pub is_in_view : Option (ℕ × ℕ) → A → Bool
  is_in_view none a = true
  is_in_view (some c) a = is_beyond c a

  abbrev pub sorts_before : A → A → Bool
  sorts_before a b =
      goes_before d (time a) (time b) || time a == time b && not (goes_before d (id b) (id a))

  abbrev pub last_key : List A → Option (ℕ × ℕ)
  last_key [] = none
  last_key (a ∷ []) = some (time a, id a)
  last_key (a ∷ b ∷ rest) = last_key (b ∷ rest)

  -- the rows of `LIMIT limit+1`
  unfoldable pub view : ℕ → Option (ℕ × ℕ) → List A → List A
  view limit cursor rows = take (suc limit) (order_by sorts_before (keep (is_in_view cursor) rows))

  -- the rows of a page, and the key for the next cursor
  abbrev pub cut : ℕ → List A → List A × Option (ℕ × ℕ)
  cut limit rows =
      if ltb limit (length rows)
      then (take limit rows, last_key (take limit rows))
      else (rows, none)

  unfoldable pub page : ℕ → Option (ℕ × ℕ) → List A → List A × Option (ℕ × ℕ)
  unfolding view
  page limit cursor rows = cut limit (view limit cursor rows)

module _ (codec : Codec) where
  -- the cursor in the answer; there is none after the last page
  abbrev pub next_cursor : Option (ℕ × ℕ) → String
  next_cursor none = ""
  next_cursor (some k) = encode_cursor codec k.0 k.1

  -- the cursor in a request; `none` is an error
  abbrev pub read_cursor : String → Option (Option (ℕ × ℕ))
  read_cursor s =
      if str_eq s ""
      then some none
      else elim (decode_cursor codec s) [ none ↦ none | some c ↦ some (some c) ]
