-- ===== src/Auth/Login.antt =====
-- `Authenticate` and `GetByID` of internal/services/user/service.go, the sessions of
-- internal/middleware/session.go, and the handlers `Login` of internal/api/handlers/auth.go,
-- `Verify2FA` of internal/api/handlers/twofactor.go.
use gitwise.Prelude.{
  ℕ, ◌+◌, String, Bool, false, not, ◌||◌, Option, none, some, List, [], ◌∷◌, ◌++◌, if◌then◌else◌,
  str_eq, find, keep,
}
use gitwise.Action.{
  Action, ok, err, Faults, after, pure, raise, gets, or_raise, modify, raise_if, ◌>>=◌, ◌>>◌,
}
use gitwise.Db.{Db, UserRow}
use gitwise.Auth.{Crypto, Session, World, verify_password}
use gitwise.Auth.Totp.{
  invalid_token, too_many_attempts, has_id, stored, is_enabled, verify, store_pending_auth,
  validate_pending_auth, increment_attempts, consume_pending_auth,
}
use gitwise.Auth.Totp as Totp

pub data UserError : Type 0 where
  bad_credentials not_found duplicate_user invalid_input token_not_found too_many_pins internal :
      UserError

-- the status of an answer, and the cookies that it sets: the session's, and that of the pending
-- second factor, which an empty value takes away
pub record Reply : Type 0 where
  pub status : ℕ
  pub session_cookie : Option String
  pub pending_cookie : Option String

abbrev pub reply : ℕ → Reply
reply status = record { status = status; session_cookie = none; pending_cookie = none }

-- a week, in milliseconds
abbrev pub session_expiry : ℕ
session_expiry = 604_800_000

abbrev pub opened : ℕ → String → ℕ → Session
opened now sid user_id = record { id = sid; user_id = user_id; expires = now + session_expiry }

-- `SessionManager.Create`; the random identifier is none if the generator fails
unfoldable pub create_session : Faults → ℕ → Option String → ℕ → Action World UserError String
create_session fails now drawn user_id = do
  sid ← or_raise drawn UserError.internal
  raise_if (fails 0) UserError.internal
  modify λ w. record w {
    sessions = keep (λ s. not (str_eq s.id sid)) w.sessions ++ opened now sid user_id ∷ [];
  }
  pure sid

-- a service's call within a handler, and the answer to its error
abbrev pub on_error : {S E A : Type 0} → (E → Reply) → Action S E A → Action S Reply A
on_error answer m s =
    let (r, s') = m s in elim r [ ok a ↦ (ok a, s') | err e ↦ (err (answer e), s') ]

abbrev pub on_db : {E A : Type 0} → Action Db E A → Action World E A
on_db m w = let (r, db) = m w.db in (r, record w { db = db })

module _ (c : Crypto) where
  abbrev pub has_login : String → UserRow → Bool
  has_login login u = str_eq u.username login || str_eq u.email login

  unfoldable pub authenticate : Faults → String → String → Action Db UserError UserRow
  authenticate fails login password = do
    raise_if (fails 0) UserError.internal
    found ← gets (λ db. find (has_login (c.to_lower login)) db.users)
    u ← or_raise found bad_credentials
    raise_if (not (verify_password c password (stored u.password))) bad_credentials
    pure (record u { password = none })

  abbrev pub login_status : UserError → Reply
  login_status bad_credentials = reply 401
  login_status e = reply 500

  abbrev pub challenge_user : Faults → ℕ → Option String → ℕ → Action World Reply Reply
  challenge_user fails now token user_id = do
    t ← on_error (λ e. reply 500) (store_pending_auth fails now token user_id)
    pure (record { status = 200; session_cookie = none; pending_cookie = some t })

  abbrev pub open_session : Faults → ℕ → Option String → ℕ → Action World Reply Reply
  open_session fails now sid user_id = do
    s ← on_error (λ e. reply 500) (create_session fails now sid user_id)
    pure (record { status = 200; session_cookie = some s; pending_cookie = some "" })

  -- `has_service` is whether `h.totp` is not nil: it is nil if `NewService` refuses the key. Without the
  -- service no second factor is asked for.
  abbrev pub second_factor : Bool → Faults → ℕ → Action World Reply Bool
  second_factor has_service fails user_id =
      if has_service
      then on_error (λ e. reply 500) (on_db (is_enabled fails user_id))
      else pure false

  unfoldable pub login :
      Bool → Faults → ℕ → Option String → Option String → String → String → Action World Reply Reply
  login has_service fails now token sid name password = do
    u ← on_error login_status (on_db (authenticate fails name password))
    enabled ← second_factor has_service (after 1 fails) u.id
    let rest = after (if has_service then 2 else 1) fails
    if enabled then challenge_user rest now token u.id else open_session rest now sid u.id

  abbrev pub clearing : ℕ → Reply
  clearing status = record { status = status; session_cookie = none; pending_cookie = some "" }

  abbrev pub pending_status : Totp.Error → Reply
  pending_status e = elim e [
    | Totp.not_configured ↦ reply 500
    | Totp.already_enabled ↦ reply 500
    | Totp.not_set_up ↦ reply 500
    | Totp.invalid_code ↦ reply 500
    | invalid_token ↦ clearing 401
    | too_many_attempts ↦ clearing 429
    | Totp.bad_password ↦ reply 500
    | Totp.internal ↦ reply 500
  ]

  -- `GetByID`; the answer is the row, of which the code selects the columns without secrets
  unfoldable pub get_by_id : Faults → ℕ → Action Db UserError UserRow
  get_by_id fails id = do
    raise_if (fails 0) UserError.internal
    found ← gets (λ db. find (has_id id) db.users)
    or_raise found UserError.not_found

  abbrev pub entered : String → ℕ → Reply
  entered sid status = record {
    status = status;
    session_cookie = some sid;
    pending_cookie = some "";
  }

  abbrev pub refuse_code : Faults → ℕ → String → Action World Reply Reply
  refuse_code fails now token = do modify (increment_attempts c fails now token); raise (reply 401)

  abbrev pub complete : Faults → ℕ → Option String → String → ℕ → Action World Reply Reply
  complete fails now sid token user_id = do
    modify (consume_pending_auth fails token)
    s ← on_error (λ e. clearing 500) (create_session (after 1 fails) now sid user_id)
    u ← on_error (λ e. entered s 500) (on_db (get_by_id (after 2 fails) user_id))
    pure (entered s 200)

  -- after the check of the code
  abbrev pub finish : Faults → ℕ → Option String → String → ℕ → Bool → Action World Reply Reply
  finish fails now sid token user_id valid =
      if valid then complete fails now sid token user_id else refuse_code fails now token

  module _ (key : Option (List ℕ)) (fails : Faults) (now : ℕ) (sid : Option String)
      (code : String) where
    -- for the user of the token
    abbrev pub check_code : String → ℕ → Action World Reply Reply
    check_code token user_id = do
      valid ← on_error (λ e. reply 500) (on_db (verify c key (after 2 fails) now user_id code))
      finish (after 4 fails) now sid token user_id valid

    -- with the token of the cookie
    abbrev pub check_token : String → Action World Reply Reply
    check_token token = do
      user_id ← on_error pending_status (validate_pending_auth fails now token)
      check_code token user_id

    unfoldable pub verify_2fa : Option String → Action World Reply Reply
    verify_2fa cookie = do
      raise_if (str_eq code "") (reply 400)
      raise_if (str_eq (stored cookie) "") (reply 400)
      check_token (stored cookie)
