-- ===== src/Middleware.antt =====
-- Who a request is from: internal/middleware/auth.go, `Get` and `Destroy` of
-- internal/middleware/session.go, and internal/middleware/admin.go.
pub mod Visits
use Prim.Native.Char.{Char, code}
use Prim.Native.String
use gitwise.Prelude.{
  ℕ, ◌+◌, String, Bool, true, false, not, ◌&&◌, Option, none, some, List, [], ◌∷◌, ltb, ◌==◌,
  if◌then◌else◌, str_eq, find, keep,
}
use gitwise.Text.{byte_len}
use gitwise.Text.Names.{is_hex_digit}
use gitwise.Action.{Result, ok, err, Faults, after}
use gitwise.Db.{Db, UserRow}
use gitwise.Auth.{Crypto, Session, World, is_session}
use gitwise.Auth.Login.{UserError, get_by_id}
use gitwise.User.{validate_token}

-- `isHex`
unfoldable pub is_hex : String → Bool
is_hex (String.[]) = true
is_hex (String.◌∷◌ c s) = is_hex_digit c && is_hex s

-- `none` is an error
abbrev pub stored_session : Faults → ℕ → String → World → Option (Option Session)
stored_session fails now id w = if fails 0 then none else some (find (is_session now id) w.sessions)

-- `SessionManager.Get`: a cookie that `Create` cannot have set is no session
unfoldable pub get : Faults → ℕ → Option String → World → Option (Option Session)
get fails now none w = some none
get fails now (some id) w =
    if not (byte_len id == 64 && is_hex id) then some none else stored_session fails now id w

-- `SessionManager.Destroy`, whose error is not looked at
unfoldable pub destroy : Faults → String → World → World
destroy fails id w =
    if fails 0 then w else record w { sessions = keep (λ s. not (str_eq s.id id)) w.sessions }

-- `strings.CutPrefix`
pub cut_prefix : String → String → Option String
cut_prefix (String.[]) s = some s
cut_prefix (String.◌∷◌ c p) (String.[]) = none
cut_prefix (String.◌∷◌ c p) (String.◌∷◌ d s) =
    let rest = cut_prefix p s in if code c == code d then rest else none

abbrev pub session_user : Option (Option Session) → Option ℕ
session_user none = none
session_user (some none) = none
session_user (some (some s)) = some s.user_id

module _ (c : Crypto) (sha256 : String → List ℕ) where
  abbrev pub by_session : Faults → ℕ → Option String → World → Option ℕ × World
  by_session fails now cookie w = (session_user (get fails now cookie w), w)

  -- a token that is not valid leaves the session to decide
  abbrev pub or_session :
      Faults → ℕ → Option String → Result UserError UserRow → World → Option ℕ × World
  or_session fails now cookie (ok u) w = (some u.id, w)
  or_session fails now cookie (err e) w = by_session fails now cookie w

  abbrev pub by_token : Faults → ℕ → Option String → Option String → World → Option ℕ × World
  by_token fails now none cookie w = by_session fails now cookie w
  by_token fails now (some token) cookie w =
      let (r, db) = validate_token c sha256 fails now token w.db in
      or_session (after 3 fails) now cookie r (record w { db = db })

  -- `Auth.Handler`: the user of the request, if it has one
  unfoldable pub request_user : Faults → ℕ → String → Option String → World → Option ℕ × World
  unfolding cut_prefix
  request_user fails now header cookie w =
      if str_eq header ""
      then by_session fails now cookie w
      else by_token fails now (cut_prefix "Bearer " header) cookie w

-- what the process remembers of a user: whether it is an administrator, until when
abbrev pub Cache : Type 0
Cache = ℕ → Option (Bool × ℕ)

-- thirty seconds, in milliseconds
abbrev pub admin_cache_ttl : ℕ
admin_cache_ttl = 30_000

abbrev pub cached : ℕ → Option (Bool × ℕ) → Option Bool
cached now none = none
cached now (some e) = if ltb e.1 now then none else some e.0

abbrev pub remember : ℕ → Bool → ℕ → Cache → Cache
remember id is_admin expires cache k = if k == id then some (is_admin, expires) else cache k

-- `InvalidateAdminCache`
unfoldable pub invalidate_admin_cache : ℕ → Cache → Cache
invalidate_admin_cache id cache k = if k == id then none else cache k

module _ (c : Crypto) where
  abbrev pub ask_db : ℕ → ℕ → Result UserError UserRow → Cache → Bool × Cache
  ask_db now id (err e) cache = (false, cache)
  ask_db now id (ok u) cache = (u.is_admin, remember id u.is_admin (now + admin_cache_ttl) cache)

  abbrev pub admit : Faults → ℕ → ℕ → Db → Cache → Option Bool → Bool × Cache
  admit fails now id db cache (some is_admin) = (is_admin, cache)
  admit fails now id db cache none = ask_db now id (get_by_id c fails id db).0 cache

  -- `RequireAdmin`: whether the request goes on to the handler behind; otherwise it is answered by 404
  unfoldable pub require_admin : Faults → ℕ → Option ℕ → Db → Cache → Bool × Cache
  require_admin fails now none db cache = (false, cache)
  require_admin fails now (some id) db cache = admit fails now id db cache (cached now (cache id))
