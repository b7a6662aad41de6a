-- ===== src/User/Oauth.antt =====
-- `FindOrCreateByOAuth` of internal/services/user/service.go.
use Prim.Native.String
use gitwise.Prelude.{
  ℕ, zero, suc, String, Bool, false, not, ◌&&◌, ◌||◌, Option, none, some, [], ◌∷◌, ◌++◌, ◌==◌,
  if◌then◌else◌, str_eq, find, any, update_where,
}
use gitwise.Action.{
  Action, Faults, after, pure, raise, gets, modify, raise_if, transaction, ◌>>=◌, ◌>>◌,
}
use gitwise.Db.{Db, UserRow, OauthRow}
use gitwise.Pull.Merge.{decimal}
use gitwise.Auth.{Crypto}
use gitwise.Auth.Totp.{stored}
use gitwise.Auth.Login.{UserError, get_by_id}

-- what the provider says of the user
pub record Profile : Type 0 where
  pub provider : String
  pub provider_id : String
  pub email : String
  pub username : String
  pub full_name : String
  pub avatar_url : String
  pub access_token : String

abbrev pub is_link : Profile → OauthRow → Bool
is_link p a = str_eq a.provider p.provider && str_eq a.provider_id p.provider_id

abbrev pub set_token : Profile → OauthRow → OauthRow
set_token p a = record a { access_token = p.access_token }

abbrev pub set_owner : Profile → ℕ → OauthRow → OauthRow
set_owner p user_id a = record a { access_token = p.access_token; user_id = user_id }

abbrev pub link : ℕ → ℕ → ℕ → Profile → OauthRow
link id now user_id p = record {
  id = id;
  user_id = user_id;
  provider = p.provider;
  provider_id = p.provider_id;
  access_token = p.access_token;
  created_at = now;
}

-- `INSERT … ON CONFLICT (provider, provider_id) DO UPDATE`
abbrev pub upsert : Profile → (OauthRow → OauthRow) → OauthRow → Db → Db
upsert p f row db = record db {
  oauth_accounts =
      if any (is_link p) db.oauth_accounts
      then update_where (is_link p) f db.oauth_accounts
      else db.oauth_accounts ++ row ∷ [];
}

abbrev pub id_taken : ℕ → Db → Bool
id_taken id db = any (λ (a : OauthRow). a.id == id) db.oauth_accounts

abbrev pub has_email : String → UserRow → Bool
has_email email u = str_eq u.email email

-- `password IS NOT NULL AND password != ''`
abbrev pub has_password : UserRow → Bool
has_password u = not (str_eq (stored u.password) "")

-- The name, or the name with a number: the loop over `i` with so many rounds left. The last round
-- fails.
unfoldable pub pick_username : Faults → String → ℕ → ℕ → String → Action Db UserError String
pick_username fails username zero i candidate = raise UserError.invalid_input
pick_username fails username (suc left) i candidate = do
  raise_if (fails i) UserError.internal
  exists ← gets (λ db. any (λ u. str_eq u.username candidate) db.users)
  let rest = pick_username fails username left (suc i) (String.◌++◌ username (decimal (suc i) i))
  if exists then rest else pure candidate

abbrev pub rounds : ℕ
rounds = 100

abbrev pub new_user : ℕ → ℕ → String → Profile → UserRow
new_user id now username p = record {
  id = id;
  username = username;
  email = p.email;
  password = none;
  full_name = p.full_name;
  avatar_url = p.avatar_url;
  bio = "";
  is_admin = false;
  created_at = now;
  updated_at = now;
  totp_secret = none;
  totp_enabled = false;
  recovery_codes = [];
}

-- the keys of `users`
abbrev pub clashes : UserRow → UserRow → Bool
clashes new u = u.id == new.id || str_eq u.username new.username || str_eq u.email new.email

-- the transaction, with its begin and its commit; the answer has no times
abbrev pub create_account : Faults → ℕ → ℕ → ℕ → Profile → Action Db UserError UserRow
create_account fails user_id link_id now p = do
  raise_if (fails 0) UserError.internal
  username ← pick_username (after 4 fails) p.username rounds 1 p.username
  let u = new_user user_id now username p
  raise_if (fails 1) UserError.internal
  taken ← gets (λ db. any (clashes u) db.users)
  raise_if taken UserError.internal
  modify (λ db. record db { users = db.users ++ u ∷ [] })
  raise_if (fails 2) UserError.internal
  refused ← gets (id_taken link_id)
  raise_if refused UserError.internal
  modify (upsert p (set_owner p user_id) (link link_id now user_id p))
  raise_if (fails 3) UserError.internal
  pure (record u { created_at = 0; updated_at = 0 })

-- the account of the address, if it has no password
abbrev pub unprotected : Option UserRow → Option UserRow
unprotected none = none
unprotected (some u) = if has_password u then none else some u

abbrev pub link_or_create :
    Faults → ℕ → ℕ → ℕ → Profile → Option UserRow → Action Db UserError UserRow
link_or_create fails user_id link_id now p none =
    transaction (create_account (after 1 fails) user_id link_id now p)
link_or_create fails user_id link_id now p (some u) = do
  raise_if (fails 0) UserError.internal
  refused ← gets (id_taken link_id)
  raise_if refused UserError.internal
  modify (upsert p (set_token p) (link link_id now u.id p))
  pure u

module _ (c : Crypto) where
  -- an error of the UPDATE of the access token is not looked at
  abbrev pub by_link : Faults → ℕ → ℕ → ℕ → Profile → Option OauthRow → Action Db UserError UserRow
  by_link fails user_id link_id now p (some a) = do
    modify λ db.
        if fails 0
        then db
        else record db { oauth_accounts = update_where (is_link p) (set_token p) db.oauth_accounts }
    get_by_id c (after 1 fails) a.user_id
  by_link fails user_id link_id now p none = do
    raise_if (fails 0) UserError.internal
    found ← gets (λ db. find (has_email p.email) db.users)
    link_or_create (after 1 fails) user_id link_id now p (unprotected found)

  -- `email` and `username` in lower case
  abbrev pub lowered : Profile → Profile
  lowered p = record p { email = c.to_lower p.email; username = c.to_lower p.username }

  unfoldable pub find_or_create_by_oauth :
      Faults → ℕ → ℕ → ℕ → Profile → Action Db UserError UserRow
  find_or_create_by_oauth fails user_id link_id now given = do
    let p = lowered given
    raise_if (fails 0) UserError.internal
    found ← gets (λ db. find (is_link p) db.oauth_accounts)
    by_link (after 1 fails) user_id link_id now p found
