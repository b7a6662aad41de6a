-- ===== src/User.antt =====
-- internal/services/user/service.go, beyond the lookups that Server and Auth/Login have: API tokens,
-- pinned repositories, the profile.
pub mod Registration
pub mod Oauth
pub mod Tokens
pub mod Takeover
use Prim.Native.String
use gitwise.Prelude.{
  ℕ, suc, String, Bool, true, false, not, ◌&&◌, ◌||◌, Option, none, some, List, [], ◌∷◌, ◌++◌, ltb,
  leb, ◌==◌, if◌then◌else◌, str_eq, find, any, all, keep, length, update_where,
}
use gitwise.Text.{trim_space, byte_len}
use gitwise.Action.{
  Action, Faults, after, pure, gets, or_raise, modify, raise_if, transaction, ◌>>=◌, ◌>>◌,
}
use gitwise.Db.{Db, UserRow, TokenRow, PinRow, RepoRow}
use gitwise.Db.Order.{order_by}
use gitwise.Field.{or_old, refuses}
use gitwise.Auth.{Crypto}
use gitwise.Auth.Totp.{has_id}
use gitwise.Auth.Login.{UserError, get_by_id}

pub record UpdateUserRequest : Type 0 where
  pub full_name : Option String
  pub bio : Option String
  pub avatar_url : Option String

pub record CreateTokenRequest : Type 0 where
  pub name : String
  pub scopes : List String
  pub expires_at : Option ℕ

-- the SET clauses
abbrev pub assign : ℕ → UpdateUserRequest → UserRow → UserRow
assign now req u = record u {
  full_name = or_old req.full_name u.full_name;
  bio = or_old req.bio u.bio;
  avatar_url = or_old req.avatar_url u.avatar_url;
  updated_at = now;
}

abbrev pub longer : ℕ → String → Bool
longer n s = ltb n (byte_len s)

unfoldable pub update : Faults → ℕ → ℕ → UpdateUserRequest → Action Db UserError UserRow
update fails now id req = do
  raise_if (refuses (longer 100) req.full_name) UserError.invalid_input
  raise_if (refuses (longer 500) req.bio) UserError.invalid_input
  raise_if (fails 0) UserError.internal
  found ← gets (λ db. find (has_id id) db.users)
  u ← or_raise found UserError.not_found
  modify (λ db. record db { users = update_where (has_id id) (assign now req) db.users })
  pure (assign now req u)

abbrev pub is_expired : ℕ → Option ℕ → Bool
is_expired now none = false
is_expired now (some t) = ltb t now

abbrev pub has_hash : String → TokenRow → Bool
has_hash hash t = str_eq t.token_hash hash

abbrev pub set_used : ℕ → TokenRow → TokenRow
set_used now t = record t { last_used = some now }

abbrev pub bad_name : String → Bool
bad_name name = str_eq name "" || ltb 100 (byte_len name)

-- `sha256` is crypto/sha256
module _ (c : Crypto) (sha256 : String → List ℕ) where
  abbrev pub token_hash : String → String
  token_hash token = c.hex_encode (sha256 token)

  abbrev pub token_of : List ℕ → String
  token_of raw = String.◌++◌ "gw_" (c.hex_encode raw)

  -- the keys of `api_tokens`, and the user that the row refers to
  abbrev pub refuses_token : Db → TokenRow → Bool
  refuses_token db t =
      any (λ (r : TokenRow). r.id == t.id || str_eq r.token_hash t.token_hash) db.api_tokens
      || not (any (has_id t.user_id) db.users)

  -- the token that the client gets, with its row; `drawn` is none if the random generator fails
  unfoldable pub create_token :
      Faults
      → ℕ
      → ℕ
      → Option (List ℕ)
      → ℕ
      → CreateTokenRequest
      → Action Db UserError (String × TokenRow)
  create_token fails id now drawn user_id req = do
    let name = trim_space req.name
    raise_if (bad_name name) UserError.invalid_input
    raw ← or_raise drawn UserError.internal
    let t : TokenRow = record {
      id = id;
      user_id = user_id;
      name = name;
      token_hash = token_hash (token_of raw);
      scopes = req.scopes;
      expires_at = req.expires_at;
      last_used = none;
      created_at = now;
    }
    raise_if (fails 0) UserError.internal
    refused ← gets (λ db. refuses_token db t)
    raise_if refused UserError.internal
    modify (λ db. record db { api_tokens = db.api_tokens ++ t ∷ [] })
    pure (token_of raw, t)

  -- an error of the last statement is not looked at
  unfoldable pub validate_token : Faults → ℕ → String → Action Db UserError UserRow
  validate_token fails now token = do
    raise_if (fails 0) UserError.internal
    found ← gets (λ db. find (has_hash (token_hash token)) db.api_tokens)
    t ← or_raise found UserError.token_not_found
    raise_if (is_expired now t.expires_at) UserError.token_not_found
    u ← get_by_id c (after 1 fails) t.user_id
    modify λ db. if fails 2 then db else record db {
      api_tokens = update_where (has_hash (token_hash token)) (set_used now) db.api_tokens;
    }
    pure u

unfoldable pub list_tokens : Faults → ℕ → Action Db UserError (List TokenRow)
list_tokens fails user_id = do
  raise_if (fails 0) UserError.internal
  gets λ db.
      order_by (λ a b. leb b.created_at a.created_at)
        (keep (λ t. t.user_id == user_id) db.api_tokens)

abbrev pub is_own_token : ℕ → ℕ → TokenRow → Bool
is_own_token user_id id t = t.id == id && t.user_id == user_id

unfoldable pub delete_token : Faults → ℕ → ℕ → Action Db UserError (Unit {0})
delete_token fails user_id id = do
  raise_if (fails 0) UserError.internal
  affected ← gets (λ db. any (is_own_token user_id id) db.api_tokens)
  modify
      (λ db. record db { api_tokens = keep (λ t. not (is_own_token user_id id t)) db.api_tokens })
  raise_if (not affected) UserError.token_not_found

-- a repository that the user may pin
abbrev pub is_accessible : ℕ → Db → ℕ → Bool
is_accessible user_id db id =
    any (λ r. r.id == id && (str_eq r.visibility "public" || r.owner_id == user_id)) db.repositories

abbrev pub pin : ℕ → ℕ → ℕ → PinRow
pin user_id repo_id position = record { user_id = user_id; repo_id = repo_id; position = position }

-- the primary key, and the repository that the row refers to
abbrev pub refuses_pin : ℕ → ℕ → Db → Bool
refuses_pin user_id repo_id db =
    any (λ p. p.user_id == user_id && p.repo_id == repo_id) db.pinned_repos
    || not (any (λ r. r.id == repo_id) db.repositories)

pub insert_pins : Faults → ℕ → ℕ → List ℕ → Action Db UserError (Unit {0})
insert_pins fails user_id position [] = pure tt
insert_pins fails user_id position (repo_id ∷ rest) = do
  raise_if (fails position) UserError.internal
  refused ← gets (refuses_pin user_id repo_id)
  raise_if refused UserError.internal
  modify λ db. record db { pinned_repos = db.pinned_repos ++ pin user_id repo_id position ∷ [] }
  insert_pins fails user_id (suc position) rest

-- the transaction, with its begin and its commit
abbrev pub replace_pins : Faults → ℕ → List ℕ → Action Db UserError (Unit {0})
replace_pins fails user_id repo_ids = do
  raise_if (fails 0) UserError.internal
  raise_if (fails 1) UserError.internal
  modify λ db. record db { pinned_repos = keep (λ p. not (p.user_id == user_id)) db.pinned_repos }
  insert_pins (after 3 fails) user_id 0 repo_ids
  raise_if (fails 2) UserError.internal

unfoldable pub set_pinned_repos : Faults → ℕ → List ℕ → Action Db UserError (Unit {0})
set_pinned_repos fails user_id repo_ids = do
  raise_if (ltb 6 (length repo_ids)) UserError.too_many_pins
  raise_if (ltb 0 (length repo_ids) && fails 0) UserError.internal
  accessible ← gets (λ db. all (is_accessible user_id db) repo_ids)
  raise_if (not accessible) UserError.invalid_input
  transaction (replace_pins (after 1 fails) user_id repo_ids)
