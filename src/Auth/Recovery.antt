-- ===== src/Auth/Recovery.antt =====
-- The recovery codes of internal/services/totp/service.go.
use Prim.Native.String
use gitwise.Prelude.{
  ℕ, String, Bool, true, false, ◌&&◌, Option, none, some, List, [], ◌∷◌, ◌==◌, if◌then◌else◌,
  str_eq, length, update_where,
}
use gitwise.Text.{trim_space}
use gitwise.Action.{Action, Faults, ok}
use gitwise.Db.{Db, UserRow}
use gitwise.Auth.{Crypto, split_colon, same_bytes}

abbrev pub rc_argon_key_len : ℕ
rc_argon_key_len = 32

-- memory, in KiB
abbrev pub rc_argon_memory : ℕ
rc_argon_memory = 32_768

module _ (c : Crypto) where
  unfoldable pub hash_recovery_code : List ℕ → String → String
  hash_recovery_code salt code =
      String.◌++◌ (c.hex_encode salt)
        (String.◌++◌ ":" (c.hex_encode (c.argon2 code salt 1 rc_argon_memory 2 rc_argon_key_len)))

  abbrev pub compare_hash : String → Option (List ℕ) → Option (List ℕ) → Bool
  compare_hash code none hash = false
  compare_hash code (some salt) none = false
  compare_hash code (some salt) (some expected) =
      let hash = c.argon2 code salt 1 rc_argon_memory 2 (length expected) in
      length hash == length expected && same_bytes hash expected

  abbrev pub check_code : String → Option (String × String) → Bool
  check_code code none = false
  check_code code (some p) = compare_hash code (c.hex_decode p.0) (c.hex_decode p.1)

  unfoldable pub verify_recovery_code : String → String → Bool
  verify_recovery_code code encoded = check_code code (split_colon encoded)

  abbrev pub kept_first : String → Option (List String) → Option (List String)
  kept_first h none = none
  kept_first h (some hs) = some (h ∷ hs)

  -- the hashes that remain without the first one that the code matches
  unfoldable pub take_match : String → List String → Option (List String)
  take_match code [] = none
  take_match code (h ∷ hs) =
      let rest = take_match code hs in
      if verify_recovery_code code h then some hs else kept_first h rest

  abbrev pub remaining : String → List String → Option (List String)
  remaining given hashes =
      let normalized = c.to_lower (trim_space given) in
      if str_eq normalized "" then none else take_match normalized hashes

abbrev pub set_codes : ℕ → List String → UserRow → UserRow
set_codes now codes u = record u { recovery_codes = codes; updated_at = now }

-- The UPDATE takes the code away; its error is not looked at.
abbrev pub consume : Faults → ℕ → ℕ → Option (List String) → Db → Bool × Db
consume fails now user_id none db = (false, db)
consume fails now user_id (some codes) db = (
  true,
  if fails 0
      then db
      else record db { users = update_where (λ u. u.id == user_id) (set_codes now codes) db.users },
)

module _ (c : Crypto) where
  unfoldable pub match_and_consume_recovery_code :
      {E : Type 0} → Faults → ℕ → ℕ → String → List String → Action Db E Bool
  match_and_consume_recovery_code fails now user_id given hashes db =
      let r = consume fails now user_id (remaining c given hashes) db in (ok r.0, r.1)
