-- ===== src/Page/Cursor.antt =====
-- A cursor that is written is read back.
use Prim.Native.Char.{Char, code}
use Prim.Native.String
use text.Mathlib.TextLemmas.{nil-append, cons-append}
use gitwise.Prelude.{ℕ, String, Bool, false, ◌||◌, some, ◌≡◌, refl, arith, ◌==◌, str_eq}
use gitwise.Page.{Codec, split_bar, encode_cursor, decode_cursor, next_cursor, read_cursor}

-- the text has the character `|`
unfoldable pub has_bar : String → Bool
has_bar (String.[]) = false
has_bar (String.◌∷◌ c s) = code c == b'|' || has_bar s

-- What the libraries say of themselves: what is encoded can be decoded, and so is what is formatted;
-- a time has no bar, and Base64 of a text is not empty.
pub record IsFaithful (codec : Codec) : Type 0 where
  pub decodes : (s : String) → codec.b64_decode (codec.b64_encode s) ≡ some s
  pub is_full : (c : Char) (s : String) → str_eq (codec.b64_encode (String.◌∷◌ c s)) "" ≡ false
  pub parses_time : (t : ℕ) → codec.parse_time (codec.format_time t) ≡ some t
  pub parses_uuid : (id : ℕ) → codec.parse_uuid (codec.uuid_string id) ≡ some id
  pub no_bar : (t : ℕ) → has_bar (codec.format_time t) ≡ false

split_bar-append :
    (s t : String) → has_bar s ≡ false → split_bar (String.◌++◌ s (String.◌++◌ "|" t)) ≡ some (s, t)
unfolding split_bar has_bar
split_bar-append (String.[]) t h =
    rw (nil-append (String.◌++◌ "|" t), cons-append, nil-append t) refl
split_bar-append (String.◌∷◌ c s) t h =
    let rest : split_bar (String.◌++◌ s (String.◌++◌ "|" t)) ≡ some (s, t) =
      split_bar-append s t (ground arith) in
    rw cons-append (ground arith)

module _ (codec : Codec) (law : IsFaithful codec) (t id : ℕ) where
  -- `DecodeCursor` reads back the time and the identifier that `EncodeCursor` wrote.
  decode_cursor-encode_cursor : decode_cursor codec (encode_cursor codec t id) ≡ some (t, id)
  unfolding decode_cursor encode_cursor
  decode_cursor-encode_cursor =
      rw
        (
          law.decodes,
          split_bar-append _ (codec.uuid_string id) (law.no_bar t),
          law.parses_time,
          law.parses_uuid,
        )
        refl

full :
    (codec : Codec)
    → IsFaithful codec
    → (s t : String) → str_eq (codec.b64_encode (String.◌++◌ s (String.◌++◌ "|" t))) "" ≡ false
full codec law (String.[]) t = rw (nil-append, cons-append) (law.is_full _ _)
full codec law (String.◌∷◌ c s) t = rw cons-append (law.is_full _ _)

written :
    (codec : Codec)
    → IsFaithful codec
    → (k : ℕ × ℕ) → str_eq (encode_cursor codec k.0 k.1) "" ≡ false
unfolding encode_cursor
written codec law k = full codec law (codec.format_time k.0) (codec.uuid_string k.1)

-- A cursor in an answer is not empty, and a request that brings it back means the key it was made of.
pub read_cursor-next_cursor :
    (codec : Codec)
    → IsFaithful codec
    → (k : ℕ × ℕ)
    → (str_eq (next_cursor codec (some k)) "" ≡ false)
      × (read_cursor codec (next_cursor codec (some k)) ≡ some (some k))
read_cursor-next_cursor codec law k =
    let not_empty : str_eq (encode_cursor codec k.0 k.1) "" ≡ false = written codec law k in
    (not_empty, rw (not_empty, decode_cursor-encode_cursor codec law k.0 k.1) refl)
