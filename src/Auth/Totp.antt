-- ===== src/Auth/Totp.antt =====
-- internal/services/totp/service.go: two-factor authentication.
use gitwise.Prelude.{
  ℕ, ◌+◌, ◌-◌, ◌*◌, String, Bool, true, false, not, Option, none, some, List, [], ◌∷◌, ◌++◌, leb,
  ◌==◌, if◌then◌else◌, str_eq, find, update_where,
}
use gitwise.Action.{
  Action, Faults, after, pure, raise, gets, or_raise, modify, raise_if, ◌>>=◌, ◌>>◌,
}
use gitwise.Db.{Db, UserRow}
use gitwise.Auth.{Crypto, Pending, World, is_pending, without, verify_password, encrypt, decrypt}
use gitwise.Auth.Recovery.{hash_recovery_code, match_and_consume_recovery_code}

-- the `Err…` variables, and any other error
pub data Error : Type 0 where
  not_configured already_enabled not_set_up invalid_code invalid_token too_many_attempts
        bad_password internal :
      Error

-- five minutes, in milliseconds
abbrev pub pending_auth_expiry : ℕ
pending_auth_expiry = 300_000

abbrev pub max_attempts : ℕ
max_attempts = 5

pub record SetupResult : Type 0 where
  pub secret : String
  pub recovery_codes : List String

-- what the random generator and `totp.Generate` give to a setup: the secret, the nonce, and eight
-- recovery codes with their salts, all in bytes
pub record Drawn : Type 0 where
  pub secret : String
  pub nonce : List ℕ
  pub codes : List (List ℕ × List ℕ)

abbrev pub has_id : ℕ → UserRow → Bool
has_id id u = u.id == id

abbrev pub set_secret : ℕ → String → List String → UserRow → UserRow
set_secret now secret codes u = record u {
  totp_secret = some secret;
  recovery_codes = codes;
  updated_at = now;
}

abbrev pub set_enabled : ℕ → UserRow → UserRow
set_enabled now u = record u { totp_enabled = true; updated_at = now }

abbrev pub cleared : ℕ → UserRow → UserRow
cleared now u = record u {
  totp_enabled = false;
  totp_secret = none;
  recovery_codes = [];
  updated_at = now;
}

-- a nil pointer is taken like an empty text
abbrev pub stored : Option String → String
stored none = ""
stored (some s) = s

unfoldable pub is_enabled : Faults → ℕ → Action Db Error Bool
is_enabled fails user_id = do
  raise_if (fails 0) internal
  found ← gets (λ db. find (has_id user_id) db.users)
  u ← or_raise found internal
  pure u.totp_enabled

unfoldable pub clear_totp : Faults → ℕ → ℕ → Action Db Error (Unit {0})
clear_totp fails now user_id = do
  raise_if (fails 0) internal
  modify (λ db. record db { users = update_where (has_id user_id) (cleared now) db.users })

module _ (c : Crypto) where
  -- the hashes of the recovery codes, and the codes themselves
  abbrev pub recovery_hashes : List (List ℕ × List ℕ) → List String
  recovery_hashes [] = []
  recovery_hashes ((bytes, salt) ∷ rest) =
      hash_recovery_code c salt (c.to_lower (c.hex_encode bytes)) ∷ recovery_hashes rest

  abbrev pub recovery_codes : List (List ℕ × List ℕ) → List String
  recovery_codes [] = []
  recovery_codes ((bytes, salt) ∷ rest) = c.hex_encode bytes ∷ recovery_codes rest

  abbrev pub is_valid : ℕ → String → Option String → Bool
  is_valid now code none = false
  is_valid now code (some secret) = c.totp_validate now code secret

  -- the code is one of the authenticator's
  abbrev pub is_totp : List ℕ → ℕ → String → UserRow → Bool
  is_totp k now code u =
      if str_eq (stored u.totp_secret) ""
      then false
      else is_valid now code (decrypt c k (stored u.totp_secret))

  abbrev pub clear_by_code : Faults → ℕ → ℕ → String → List String → Action Db Error (Unit {0})
  clear_by_code fails now user_id code hashes = do
    matched ← match_and_consume_recovery_code c (after 1 fails) now user_id code hashes
    raise_if (not matched) invalid_code
    clear_totp (after 2 fails) now user_id

module _ (c : Crypto) (key : Option (List ℕ)) where
  -- `drawn` is none if a generator fails
  unfoldable pub begin_setup :
      Faults → ℕ → Option Drawn → ℕ → String → String → Action Db Error SetupResult
  begin_setup fails now drawn user_id hash password = do
    k ← or_raise key not_configured
    raise_if (not (verify_password c password hash)) bad_password
    enabled ← is_enabled fails user_id
    raise_if enabled already_enabled
    d ← or_raise drawn internal
    raise_if (fails 1) internal
    modify λ db. record db {
      users =
          update_where (has_id user_id)
            (set_secret now (encrypt c k d.nonce d.secret) (recovery_hashes c d.codes)) db.users;
    }
    pure (record { secret = d.secret; recovery_codes = recovery_codes c d.codes })

  unfoldable pub enable : Faults → ℕ → ℕ → String → Action Db Error (Unit {0})
  enable fails now user_id code = do
    k ← or_raise key not_configured
    raise_if (fails 0) internal
    found ← gets (λ db. find (has_id user_id) db.users)
    u ← or_raise found internal
    raise_if (str_eq (stored u.totp_secret) "") not_set_up
    secret ← or_raise (decrypt c k (stored u.totp_secret)) internal
    raise_if (not (c.totp_validate now code secret)) invalid_code
    raise_if (fails 1) internal
    modify (λ db. record db { users = update_where (has_id user_id) (set_enabled now) db.users })

  unfoldable pub verify : Faults → ℕ → ℕ → String → Action Db Error Bool
  verify fails now user_id code = do
    k ← or_raise key not_configured
    raise_if (fails 0) internal
    found ← gets (λ db. find (has_id user_id) db.users)
    u ← or_raise found internal
    if is_totp c k now code u
        then pure true
        else match_and_consume_recovery_code c (after 1 fails) now user_id code u.recovery_codes

  unfoldable pub disable : Faults → ℕ → ℕ → String → Action Db Error (Unit {0})
  disable fails now user_id code = do
    k ← or_raise key not_configured
    raise_if (fails 0) internal
    found ← gets (λ db. find (has_id user_id) db.users)
    u ← or_raise found internal
    if is_totp c k now code u
        then clear_totp (after 1 fails) now user_id
        else clear_by_code c fails now user_id code u.recovery_codes

abbrev pub waiting : String → ℕ → ℕ → Pending
waiting token user_id expires = record {
  token = token;
  user_id = user_id;
  attempts = 0;
  expires = expires;
}

-- `drawn` is the random token, none if the generator fails
unfoldable pub store_pending_auth : Faults → ℕ → Option String → ℕ → Action World Error String
store_pending_auth fails now drawn user_id = do
  token ← or_raise drawn internal
  raise_if (fails 0) internal
  modify λ w. record w {
    pending = without token w.pending ++ waiting token user_id (now + pending_auth_expiry) ∷ [];
  }
  pure token

-- an error of `DEL` is not looked at
abbrev pub exhaust : Faults → String → Action World Error ℕ
exhaust fails token = do
  modify (λ w. if fails 1 then w else record w { pending = without token w.pending })
  raise too_many_attempts

unfoldable pub validate_pending_auth : Faults → ℕ → String → Action World Error ℕ
validate_pending_auth fails now token = do
  raise_if (fails 0) internal
  found ← gets (λ w. find (is_pending now token) w.pending)
  p ← or_raise found invalid_token
  if leb max_attempts p.attempts then exhaust fails token else pure p.user_id

abbrev pub expiry_seconds : ℕ
expiry_seconds = 300

abbrev pub fresh_ttl : ℕ → ℕ
fresh_ttl t = if t == 0 then expiry_seconds else t

module _ (c : Crypto) where
  -- the script, on the value of the key
  abbrev pub bump : ℕ → String → Option Pending → List Pending → List Pending
  bump now token none ps = ps
  bump now token (some p) ps =
      if leb max_attempts (p.attempts + 1)
      then without token ps
      else without token ps
        ++ record p {
          attempts = p.attempts + 1;
          expires = now + 1000 * fresh_ttl (c.ttl (p.expires - now));
        }
          ∷ []

  -- the script runs as one step; its error is not looked at
  unfoldable pub increment_attempts : Faults → ℕ → String → World → World
  increment_attempts fails now token w =
      if fails 0
      then w
      else record w { pending = bump now token (find (is_pending now token) w.pending) w.pending }

unfoldable pub consume_pending_auth : Faults → String → World → World
consume_pending_auth fails token w =
    if fails 0 then w else record w { pending = without token w.pending }
