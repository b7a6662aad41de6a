-- ===== src/User/Registration.antt =====
-- `Create` of internal/services/user/service.go, and `hashPassword` of password.go beside it.
use Prim.Native.Char.{code}
use Prim.Native.String
use gitwise.Prelude.{
  ℕ, String, Bool, true, false, not, ◌||◌, Option, none, some, List, [], ◌∷◌, ◌++◌, ltb, ◌==◌,
  str_eq, any,
}
use gitwise.Text.{byte_len}
use gitwise.Text.Names.{username_re}
use gitwise.Action.{
  Action, Result, ok, err, Faults, pure, gets, or_raise, modify, raise_if, ◌>>=◌, ◌>>◌,
}
use gitwise.Db.{Db, UserRow}
use gitwise.Org as Org
use gitwise.Auth.{Crypto}
use gitwise.Auth.Login.{UserError}

pub record CreateUserRequest : Type 0 where
  pub username : String
  pub email : String
  pub password : String
  pub full_name : String

-- `strings.Contains(s, "@")`
pub has_at : String → Bool
has_at (String.[]) = false
has_at (String.◌∷◌ c s) = code c == b'@' || has_at s

-- the unique keys of `users`
abbrev pub clashes : UserRow → UserRow → Bool
clashes new u = u.id == new.id || str_eq u.username new.username || str_eq u.email new.email

abbrev org_result : Result Org.Error Bool → Result UserError Bool
org_result (ok b) = ok b
org_result (err e) = err UserError.internal

module _ (c : Crypto) where
  -- memory in KiB, one pass, four threads, 32 bytes; `version` is the text of `argon2.Version`
  unfoldable pub hash_password : String → List ℕ → String → String
  hash_password version salt password = String.◌++◌ "$argon2id$v=" (
      String.◌++◌ version (
        String.◌++◌ "$m=65536,t=1,p=4$" (
          String.◌++◌ (c.raw_b64_encode salt)
            (String.◌++◌ "$" (c.raw_b64_encode (c.argon2 password salt 1 65_536 4 32))))))

  -- `orgCheck`, if it is set
  abbrev pub org_exists : Bool → Faults → String → Action Db UserError Bool
  org_exists false fails name db = (ok false, db)
  org_exists true fails name db =
      let (r, db') = Org.name_exists c.to_lower fails name db in (org_result r, db')

  -- `drawn` is the salt, none if the random generator fails
  -- the answer has neither the password nor the times
  unfoldable pub create :
      String
      → Bool
      → Faults
      → ℕ
      → ℕ
      → Option (List ℕ)
      → CreateUserRequest
      → Action Db UserError UserRow
  unfolding has_at
  create version org_check fails id now drawn req = do
    raise_if (not (username_re req.username)) UserError.invalid_input
    raise_if (ltb (byte_len req.password) 8) UserError.invalid_input
    raise_if (ltb 128 (byte_len req.password)) UserError.invalid_input
    raise_if (not (has_at req.email) || ltb 254 (byte_len req.email)) UserError.invalid_input
    exists ← org_exists org_check fails req.username
    raise_if exists UserError.duplicate_user
    salt ← or_raise drawn UserError.internal
    let u : UserRow = record {
      id = id;
      username = c.to_lower req.username;
      email = c.to_lower req.email;
      password = some (hash_password version salt req.password);
      full_name = req.full_name;
      avatar_url = "";
      bio = "";
      is_admin = false;
      created_at = now;
      updated_at = now;
      totp_secret = none;
      totp_enabled = false;
      recovery_codes = [];
    }
    raise_if (fails 1) UserError.internal
    taken ← gets (λ db. any (clashes u) db.users)
    raise_if taken UserError.duplicate_user
    modify (λ db. record db { users = db.users ++ u ∷ [] })
    pure (record u { password = none; created_at = 0; updated_at = 0 })
