-- ===== src/Auth.antt =====
-- internal/services/user/password.go, internal/services/totp/crypto.go, and what a login keeps in
-- Redis: the pending second factors of internal/services/totp/service.go and the sessions of
-- internal/middleware/session.go.
pub mod Recovery
pub mod Totp
pub mod Login
pub mod Stages
pub mod Safety
pub mod Passwords
pub mod Attempts
pub mod Codes
use Prim.Native.Char.{Char, code}
use Prim.Native.String
use gitwise.Prelude.{
  ℕ, String, Bool, true, false, not, ◌&&◌, ◌||◌, Option, none, some, List, [], ◌∷◌, ◌++◌, ltb, ◌==◌,
  if◌then◌else◌, str_eq, find, keep, length, take,
}
use gitwise.Db.{Db}

-- Libraries: golang.org/x/crypto/argon2, encoding/hex, encoding/base64, crypto/cipher, the codes of
-- pquerna/otp, strings.ToLower and fmt.Sscanf; `none` is an error. Bytes are numbers.
pub record Crypto : Type 0 where
  pub argon2 : String → List ℕ → ℕ → ℕ → ℕ → ℕ → List ℕ
  pub hex_encode : List ℕ → String
  pub hex_decode : String → Option (List ℕ)
  pub raw_b64_encode : List ℕ → String
  pub raw_b64_decode : String → Option (List ℕ)
  pub scan_params : String → Option (ℕ × ℕ × ℕ)
  pub nonce_size : ℕ
  pub gcm_seal : List ℕ → List ℕ → String → List ℕ
  pub gcm_open : List ℕ → List ℕ → List ℕ → Option String
  pub totp_validate : ℕ → String → String → Bool
  pub to_lower : String → String
  -- the whole seconds that `TTL` reports of so many milliseconds
  pub ttl : ℕ → ℕ

pub record Pending : Type 0 where
  pub token : String
  pub user_id : ℕ
  pub attempts : ℕ
  pub expires : ℕ

pub record Session : Type 0 where
  pub id : String
  pub user_id : ℕ
  pub expires : ℕ

-- the database, and the keys of Redis under the two prefixes
pub record World : Type 0 where
  pub db : Db
  pub pending : List Pending
  pub sessions : List Session

-- `GET`, with the time in milliseconds
abbrev pub is_pending : ℕ → String → Pending → Bool
is_pending now token p = str_eq p.token token && ltb now p.expires

-- `DEL`
abbrev pub without : String → List Pending → List Pending
without token = keep (λ p. not (str_eq p.token token))

abbrev pub is_session : ℕ → String → Session → Bool
is_session now id s = str_eq s.id id && ltb now s.expires

abbrev pub drop : ℕ → List ℕ → List ℕ
drop ℕ.zero bs = bs
drop (ℕ.suc n) [] = []
drop (ℕ.suc n) (b ∷ bs) = drop n bs

abbrev put_first : Char → List String → List String
put_first c [] = []
put_first c (s ∷ ss) = String.◌∷◌ c s ∷ ss

-- `strings.Split(s, "$")`
unfoldable pub split_dollars : String → List String
split_dollars (String.[]) = "" ∷ []
split_dollars (String.◌∷◌ c s) =
    let rest = split_dollars s in if code c == b'$' then "" ∷ rest else put_first c rest

abbrev put_front : Char → Option (String × String) → Option (String × String)
put_front c none = none
put_front c (some p) = some (String.◌∷◌ c p.0, p.1)

-- `strings.SplitN(s, ":", 2)`; `none` is a text without a colon
unfoldable pub split_colon : String → Option (String × String)
split_colon (String.[]) = none
split_colon (String.◌∷◌ c s) =
    let rest = split_colon s in if code c == b':' then some ("", s) else put_front c rest

-- the comparison of all bytes
abbrev pub same_bytes : List ℕ → List ℕ → Bool
same_bytes [] [] = true
same_bytes [] (b ∷ bs) = false
same_bytes (a ∷ as_) [] = false
same_bytes (a ∷ as_) (b ∷ bs) = a == b && same_bytes as_ bs

module _ (c : Crypto) where
  abbrev pub check_hash : String → Option (ℕ × ℕ × ℕ) → Option (List ℕ) → Option (List ℕ) → Bool
  check_hash password none salt hash = false
  check_hash password (some p) none hash = false
  check_hash password (some p) (some salt) none = false
  check_hash password (some (memory, time, threads)) (some salt) (some hash) =
      same_bytes (c.argon2 password salt time memory threads (length hash)) hash

  abbrev pub check_parts : String → List String → Bool
  check_parts password (empty ∷ name ∷ version ∷ params ∷ salt ∷ hash ∷ []) =
      if str_eq name "argon2id"
      then check_hash password (c.scan_params params) (c.raw_b64_decode salt)
          (c.raw_b64_decode hash)
      else false
  check_parts password parts = false

  unfoldable pub verify_password : String → String → Bool
  verify_password password encoded = check_parts password (split_dollars encoded)

  unfoldable pub encrypt : List ℕ → List ℕ → String → String
  encrypt key nonce plaintext = c.hex_encode (nonce ++ c.gcm_seal key nonce plaintext)

  abbrev pub open_bytes : List ℕ → Option (List ℕ) → Option String
  open_bytes key none = none
  open_bytes key (some bytes) =
      if ltb (length bytes) c.nonce_size
      then none
      else c.gcm_open key (take c.nonce_size bytes) (drop c.nonce_size bytes)

  unfoldable pub decrypt : List ℕ → String → Option String
  decrypt key encoded = open_bytes key (c.hex_decode encoded)
