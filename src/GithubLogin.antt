-- ===== src/GithubLogin.antt =====
-- internal/services/oauth/service.go: the login with an account at GitHub.
pub mod States
pub mod Emails
use Prim.Native.String
use gitwise.Prelude.{
  ℕ, suc, ◌+◌, String, Bool, true, false, not, ◌&&◌, ◌||◌, Option, none, some, List, [], ◌∷◌, ltb,
  ◌==◌, if◌then◌else◌, str_eq, find, any, keep,
}
use gitwise.Pull.Merge.{decimal}

-- a key of Redis under `oauth_state:`, and when it runs out, in milliseconds
pub record State : Type 0 where
  pub name : String
  pub expires : ℕ

-- ten minutes
abbrev pub state_ttl : ℕ
state_ttl = 600_000

abbrev pub is_live : ℕ → String → State → Bool
is_live now name s = str_eq s.name name && ltb now s.expires

abbrev pub has_name : String → State → Bool
has_name name s = str_eq s.name name

-- `SET` takes the place of a key of the same name
abbrev pub set_state : ℕ → String → List State → List State
set_state now name ss =
    record { name = name; expires = now + state_ttl } ∷ keep (λ s. not (has_name name s)) ss

-- `drawn` are the random bytes, none if the generator fails; none is an error
unfoldable pub generate_state :
    (List ℕ → String) → Bool → ℕ → Option (List ℕ) → List State → Option String × List State
generate_state hex fails now none ss = (none, ss)
generate_state hex fails now (some b) ss =
    if fails then (none, ss) else (some (hex b), set_state now (hex b) ss)

-- `DEL` says whether the key was there
unfoldable pub validate_state : Bool → ℕ → String → List State → Bool × List State
validate_state fails now name ss =
    if fails then (false, ss) else (any (is_live now name) ss, keep (λ s. not (has_name name s)) ss)

pub record GithubUser : Type 0 where
  pub id : ℕ
  pub login : String
  pub email : String
  pub name : String
  pub avatar_url : String

pub record TokenResponse : Type 0 where
  pub access_token : String
  pub error : String

pub record EmailEntry : Type 0 where
  pub email : String
  pub primary : Bool
  pub verified : Bool

pub record Reply : Type 0 where
  pub status : ℕ
  pub body : String

-- What is sent to GitHub: the form of the token request, or a request with a bearer token.
pub data Call : Type 0 where
  exchanges : String → String → Call
  asks_user asks_emails : String → Call

-- the answers of GitHub (none where `client.Do`, or the reading of the answer, fails), JSON, and
-- `url.Parse` with `URL.String` for the base URL: its scheme, and the URL with the path put in
pub record Github : Type 0 where
  pub answer : Call → Option Reply
  pub decode_token : String → Option TokenResponse
  pub decode_user : String → Option GithubUser
  pub decode_emails : String → Option (List EmailEntry)
  pub parse_base : String → Option (String × (String → String))

abbrev pub allowed_callback_suffix : String
allowed_callback_suffix = "/api/v1/auth/github/callback"

-- none is an error
unfoldable pub callback_uri : Github → String → Option String
callback_uri g base = elim (g.parse_base base) [
  | none ↦ none
  | some u ↦
      if not (str_eq u.0 "http") && not (str_eq u.0 "https")
      then none
      else some (u.1 allowed_callback_suffix)
]

abbrev pub no_reply : String → String
no_reply login = String.◌++◌ login "@users.noreply.github.com"

-- the primary address if it is verified, else the first verified one
unfoldable pub pick_email : String → List EmailEntry → String
pick_email login es = elim (find (λ (e : EmailEntry). e.primary && e.verified) es) [
  | some e ↦ e.email
  | none ↦ elim (find (λ (e : EmailEntry). e.verified) es) [
    | some e ↦ e.email
    | none ↦ no_reply login
  ]
]

abbrev pub emails_of : Github → String → Option Reply → String
emails_of g login none = no_reply login
emails_of g login (some r) =
    if not (r.status == 200)
    then no_reply login
    else elim (g.decode_emails r.body) [ none ↦ no_reply login | some es ↦ pick_email login es ]

unfoldable pub fetch_primary_email : Github → String → String → String
unfolding pick_email
fetch_primary_email g token login = emails_of g login (g.answer (asks_emails token))

abbrev pub with_email : Github → String → GithubUser → GithubUser
with_email g token u =
    if str_eq u.email "" then record u { email = fetch_primary_email g token u.login } else u

-- none is an error
abbrev pub user_of : Github → String → Option Reply → Option GithubUser
user_of g token none = none
user_of g token (some r) =
    if not (r.status == 200)
    then none
    else elim (g.decode_user r.body) [ none ↦ none | some u ↦ some (with_email g token u) ]

unfoldable pub fetch_github_user : Github → String → Option GithubUser
unfolding fetch_primary_email
fetch_github_user g token = user_of g token (g.answer (asks_user token))

-- the token of an answer that has one and no error; its status is not looked at
abbrev pub token_of : Github → Option Reply → Option String
token_of g none = none
token_of g (some r) = elim (g.decode_token r.body) [
  | none ↦ none
  | some t ↦
      if not (str_eq t.error "")
      then none
      else if str_eq t.access_token ""
      then none
      else some t.access_token
]

-- the user and the access token; none is an error
unfoldable pub exchange_github_code : Github → String → String → Option (GithubUser × String)
unfolding callback_uri fetch_github_user
exchange_github_code g base code = elim (callback_uri g base) [
  | none ↦ none
  | some cb ↦ elim (token_of g (g.answer (exchanges code cb))) [
    | none ↦ none
    | some token ↦ elim (fetch_github_user g token) [ none ↦ none | some u ↦ some (u, token) ]
  ]
]

abbrev pub uri_or_base : Github → String → String
uri_or_base g base = elim (callback_uri g base) [
  | none ↦ String.◌++◌ base allowed_callback_suffix
  | some cb ↦ cb
]

-- `encode` is `url.Values.Encode`; the base URL has no slash at its end, since `NewService` takes it off
unfoldable pub get_github_auth_url :
    Github → (List (String × String) → String) → String → String → String → String
unfolding callback_uri
get_github_auth_url g encode client_id base state =
    String.◌++◌ "https://github.com/login/oauth/authorize?" (
      encode (
        ("client_id", client_id)
        ∷ ("redirect_uri", uri_or_base g base)
        ∷ ("scope", "user:email")
        ∷ ("state", state)
        ∷ []))

unfoldable pub provider_id : ℕ → String
provider_id id = decimal (suc id) id
