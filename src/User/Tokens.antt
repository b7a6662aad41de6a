-- ===== src/User/Tokens.antt =====
-- An API token works for its user, and only after it was made and until it expires.
use gitwise.Prelude.{
  ℕ, String, Bool, false, ltb, not, ◌||◌, Option, none, some, List, [], ◌∷◌, ◌++◌, ◌≡◌, refl, ap,
  ◌∙◌, inl, inr, arith, ◌==◌, str_eq, str_eq_refl, find, any, find-append, if◌then◌else◌, if_true,
  Option-cases, Bool-cases,
}
use gitwise.Text.{trim_space}
use gitwise.Action.{ok, err, Faults, no_faults}
use gitwise.Db.{Db, UserRow, TokenRow}
use gitwise.Auth.{Crypto}
use gitwise.Auth.Totp.{has_id}
use gitwise.Auth.Login.{UserError, get_by_id}
use gitwise.User.{
  CreateTokenRequest, is_expired, has_hash, token_hash, token_of, refuses_token, create_token,
  validate_token,
}

unused_hash :
    (hash : String) (id : ℕ) (ts : List TokenRow)
    → any (λ (r : TokenRow). r.id == id || str_eq r.token_hash hash) ts ≡ false
    → find (has_hash hash) ts ≡ none
unused_hash hash id [] h = refl
unused_hash hash id (t ∷ ts) h = ground (arith, unused_hash hash id ts)

found_user :
    (id : ℕ) (us : List UserRow)
    → not (any (has_id id) us) ≡ false
    → (u : UserRow) × (find (has_id id) us ≡ some u)
found_user id [] h = absurd (ground arith)
found_user id (u ∷ us) h = elim (Bool-cases (has_id id u)) [
  | inl e ↦ (u, rw e refl)
  | inr e ↦ let (v, f) = found_user id us (ground arith) in (v, rw e f)
]

-- a token that is to run out at this time, if any, has done so
abbrev pub has_run_out : ℕ → Option ℕ → Bool
has_run_out now none = false
has_run_out now (some t) = ltb t now

is_expired-has_run_out : (now : ℕ) (o : Option ℕ) → is_expired now o ≡ has_run_out now o
is_expired-has_run_out now none = refl
is_expired-has_run_out now (some t) = refl

module _ (c : Crypto) (sha256 : String → List ℕ) where
  abbrev pub row : ℕ → ℕ → List ℕ → ℕ → CreateTokenRequest → TokenRow
  row id now raw user_id req = record {
    id = id;
    user_id = user_id;
    name = trim_space req.name;
    token_hash = token_hash c sha256 (token_of c sha256 raw);
    scopes = req.scopes;
    expires_at = req.expires_at;
    last_used = none;
    created_at = now;
  }

  -- what a success of `create_token` needs and does
  create_token_ok :
      (fails : Faults) (id now : ℕ) (drawn : Option (List ℕ)) (user_id : ℕ)
      (req : CreateTokenRequest) (db : Db) (token : String) (t : TokenRow)
      → (create_token c sha256 fails id now drawn user_id req db).0 ≡ ok (token, t)
      → (raw : List ℕ) × (token ≡ token_of c sha256 raw)
        × (refuses_token c sha256 db (row id now raw user_id req) ≡ false)
        × ((create_token c sha256 fails id now drawn user_id req db).1
            ≡ record db { api_tokens = db.api_tokens ++ row id now raw user_id req ∷ [] })
  unfolding create_token
  create_token_ok fails id now drawn user_id req db token t h = elim (Option-cases drawn) [
    | inl e ↦ absurd (ground arith)
    | inr (raw, e) ↦ (raw, ground arith, ground arith, ground arith)
  ]

  validate_token_known :
      (now : ℕ) (token : String) (t : TokenRow) (u : UserRow) (db : Db)
      → find (has_hash (token_hash c sha256 token)) db.api_tokens ≡ some t
      → find (has_id t.user_id) db.users ≡ some u
      → (validate_token c sha256 no_faults now token db).0
        ≡ (if is_expired now t.expires_at then err UserError.token_not_found else ok u)
  unfolding validate_token get_by_id
  validate_token_known now token t u db e f = ground arith

  validate_token_unknown :
      (now : ℕ) (token : String) (db : Db)
      → find (has_hash (token_hash c sha256 token)) db.api_tokens ≡ none
      → (validate_token c sha256 no_faults now token db).0 ≡ err UserError.token_not_found
  unfolding validate_token
  validate_token_unknown now token db e = ground arith

  -- A token that `CreateToken` gives to a user is refused by `ValidateToken` before it was made. After
  -- it, it is accepted for this user at any time up to its time of expiry, and refused later, if no
  -- statement of `ValidateToken` fails.
  pub create_token-validate_token :
      (fails : Faults) (id now : ℕ) (drawn : Option (List ℕ)) (user_id : ℕ)
      (req : CreateTokenRequest) (db : Db) (token : String) (t : TokenRow)
      → (create_token c sha256 fails id now drawn user_id req db).0 ≡ ok (token, t)
      → (before later : ℕ)
      → ((validate_token c sha256 no_faults before token db).0 ≡ err UserError.token_not_found)
        × (u : UserRow) × (find (has_id user_id) db.users ≡ some u)
        × ((validate_token c sha256 no_faults later token
              (create_token c sha256 fails id now drawn user_id req db).1).0
            ≡ (if has_run_out later req.expires_at then err UserError.token_not_found else ok u))
  create_token-validate_token fails id now drawn user_id req db token t h before later =
      let (raw, same, allowed, e) = create_token_ok fails id now drawn user_id req db token t h in
      let r = row id now raw user_id req in
      let none_yet : find (has_hash (token_hash c sha256 token)) db.api_tokens ≡ none =
        ap (λ (x : String). find (has_hash (token_hash c sha256 x)) db.api_tokens) same
        ∙ unused_hash r.token_hash id db.api_tokens (ground arith) in
      let (u, f) = found_user user_id db.users (ground arith) in
      let db' : Db = record db { api_tokens = db.api_tokens ++ r ∷ [] } in
      let now_there : find (has_hash (token_hash c sha256 token)) db'.api_tokens ≡ some r =
        find-append (has_hash (token_hash c sha256 token)) db.api_tokens (r ∷ []) none_yet
        ∙ if_true _ _ (
            ap (λ (x : String). str_eq r.token_hash (token_hash c sha256 x)) same
            ∙ str_eq_refl r.token_hash) in
      (
        validate_token_unknown before token db none_yet,
        u,
        f,
        ap (λ (d : Db). (validate_token c sha256 no_faults later token d).0) e
            ∙ (validate_token_known later token r u db' now_there f
                ∙ ap (λ b. if b then err UserError.token_not_found else ok u)
                    (is_expired-has_run_out later req.expires_at)),
      )
