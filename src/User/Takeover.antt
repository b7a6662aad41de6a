-- ===== src/User/Takeover.antt =====
-- Which account a login by OAuth gets.
use Prim.Native.String
use gitwise.Prelude.{
  ℕ, zero, suc, String, true, false, ◌||◌, none, some, List, [], ◌∷◌, ◌≡◌, refl, subst, ap, ◌∙◌,
  ◌⊎◌, inl, inr, arith, ◌==◌, find, any, Option-cases, Bool-cases,
}
use gitwise.Action.{ok, err, Faults, after, Result-cases}
use gitwise.Db.{Db, UserRow, OauthRow}
use gitwise.Pull.Merge.{decimal}
use gitwise.Auth.{Crypto}
use gitwise.Auth.Totp.{has_id}
use gitwise.Auth.Login.{UserError, get_by_id}
use gitwise.User.Oauth.{
  Profile, is_link, has_email, has_password, pick_username, rounds, new_user, clashes,
  create_account, link_or_create, lowered, find_or_create_by_oauth,
}

pick_username_db :
    (fails : Faults) (username : String) (left i : ℕ) (candidate : String) (db : Db)
    → (pick_username fails username left i candidate db).1 ≡ db
unfolding pick_username
pick_username_db fails username zero i candidate db = refl
pick_username_db fails username (suc left) i candidate db = ground (
  arith,
  pick_username_db fails username left (suc i) (String.◌++◌ username (decimal (suc i) i)) db,
)

unclaimed :
    (new : UserRow) (us : List UserRow)
    → any (clashes new) us ≡ false
    → any (λ (x : UserRow). x.id == new.id || has_email new.email x) us ≡ false
unclaimed new [] h = refl
unclaimed new (u ∷ us) h = ground (arith, unclaimed new us)

found_unclaimed :
    (email : String) (user_id : ℕ) (v : UserRow) (us : List UserRow)
    → find (has_email email) us ≡ some v
    → any (λ (x : UserRow). x.id == user_id || has_email email x) us ≡ false
    → ⊥
found_unclaimed email user_id v [] f g = cc
found_unclaimed email user_id v (y ∷ us) f g = ground (arith, found_unclaimed email user_id v us)

module _ (fails : Faults) (user_id link_id now : ℕ) (p : Profile) (db : Db) where
  -- a new account needs an identifier and an address that no user has
  create_account_ok :
      (u : UserRow)
      → (create_account fails user_id link_id now p db).0 ≡ ok u
      → (u.id ≡ user_id)
        × (any (λ (x : UserRow). x.id == user_id || has_email p.email x) db.users ≡ false)
  create_account_ok u h =
      let kept = pick_username_db (after 4 fails) p.username rounds 1 p.username db in
      elim (Result-cases (pick_username (after 4 fails) p.username rounds 1 p.username db).0) [
        | inr (x, e) ↦ absurd (ground (arith, kept))
        | inl (username, e) ↦
            let new = new_user user_id now username p in
            let free : any (clashes new) db.users ≡ false = ground (arith, kept) in
            let same : u ≡ record new { created_at = 0; updated_at = 0 } = ground (arith, kept) in
            (ap (λ (x : UserRow). x.id) same, unclaimed new db.users free)
      ]

  create_account_fails :
      (v : UserRow)
      → find (has_email p.email) db.users ≡ some v
      → (x : UserError) × ((create_account fails user_id link_id now p db).0 ≡ err x)
  create_account_fails v h = elim (Result-cases (create_account fails user_id link_id now p db).0) [
    | inr (x, e) ↦ (x, e)
    | inl (u, e) ↦
        let (_, free) = create_account_ok u e in
        absurd (found_unclaimed p.email user_id v db.users h free)
  ]

-- The account of a login by OAuth: the one that the provider's user is linked to; or, without a link,
-- the one with the address, if it has no password; or a new one.
abbrev pub IsLogin : ℕ → Profile → Db → UserRow → Type 0
IsLogin user_id p db u =
    ((a : OauthRow) × (find (is_link p) db.oauth_accounts ≡ some a)
      × (find (has_id a.user_id) db.users ≡ some u))
    ⊎ ((find (is_link p) db.oauth_accounts ≡ none)
        × (find (has_email p.email) db.users ≡ some u)
        × (has_password u ≡ false))
    ⊎ ((find (is_link p) db.oauth_accounts ≡ none)
        × (u.id ≡ user_id)
        × (any (λ (x : UserRow). x.id == user_id || has_email p.email x) db.users ≡ false))

module _ (c : Crypto) (fails : Faults) (user_id link_id now : ℕ) (given : Profile) (db : Db) where
  created :
      (u : UserRow)
      → (link_or_create (after 2 fails) user_id link_id now (lowered c given) none db).0 ≡ ok u
      → (create_account (after 3 fails) user_id link_id now (lowered c given) db).0 ≡ ok u
  created u h =
      elim (Result-cases
        (create_account (after 3 fails) user_id link_id now (lowered c given) db).0) [
          | inr (x, e) ↦ absurd (ground arith)
          | inl (v, e) ↦ ground arith
        ]

  -- `FindOrCreateByOAuth` returns an account that is linked to the provider's user; or, if none is
  -- linked, one with the user's address and without a password, or a new one, whose identifier and
  -- address no account has. An account with a password is never returned without a link.
  pub find_or_create_by_oauth-IsLogin :
      (u : UserRow)
      → (find_or_create_by_oauth c fails user_id link_id now given db).0 ≡ ok u
      → IsLogin user_id (lowered c given) db u
  unfolding find_or_create_by_oauth get_by_id
  find_or_create_by_oauth-IsLogin u h =
      elim (Option-cases (find (is_link (lowered c given)) db.oauth_accounts)) [
        | inr (a, e) ↦ elim (Option-cases (find (has_id a.user_id) db.users)) [
          | inl f ↦ absurd (ground arith)
          | inr (v, f) ↦ inl (a, e, f ∙ ground arith)
        ]
        | inl e ↦ elim (Option-cases (find (has_email (lowered c given).email) db.users)) [
          | inl f ↦
              let made =
                create_account_ok (after 3 fails) user_id link_id now (lowered c given) db u
                  (created u (ground arith)) in
              inr (inr (e, made.0, made.1))
          | inr (v, f) ↦ elim (Bool-cases (has_password v)) [
            | inl protected ↦
                let made =
                  create_account_ok (after 3 fails) user_id link_id now (lowered c given) db u
                    (created u (ground arith)) in
                inr (inr (e, made.0, made.1))
            | inr open_ ↦ inr (
                inl (
                  e,
                  f ∙ ground arith,
                  let same : v ≡ u = ground arith in
                      subst (λ (x : UserRow). has_password x ≡ false) same open_,
                ))
          ]
        ]
      ]

  -- If an account with the address has a password and the provider's user is not linked, then
  -- `FindOrCreateByOAuth` fails, and the database stays as it was: the new account that it tries to
  -- create would have the same address.
  find_or_create_by_oauth_needs_link :
      (v : UserRow)
      → find (is_link (lowered c given)) db.oauth_accounts ≡ none
      → find (has_email (lowered c given).email) db.users ≡ some v
      → has_password v ≡ true
      → (x : UserError) × (find_or_create_by_oauth c fails user_id link_id now given db
          ≡ (err x, db))
  unfolding find_or_create_by_oauth
  find_or_create_by_oauth_needs_link v e f h =
      elim (Result-cases (find_or_create_by_oauth c fails user_id link_id now given db).0) [
        | inr (x, k) ↦ (x, λ i. (k i, unchanged i))
        | inl (u, k) ↦ elim (find_or_create_by_oauth-IsLogin u k) [
          | inl (a, linked, _) ↦ absurd (ground arith)
          | inr rest ↦ elim rest [
            | inl (_, g, open_) ↦ absurd (ground arith)
            | inr (_, _, free) ↦
                absurd (found_unclaimed (lowered c given).email user_id v db.users f free)
          ]
        ]
      ]
    where
      unchanged : (find_or_create_by_oauth c fails user_id link_id now given db).1 ≡ db
      unchanged =
          let (x, g) =
            create_account_fails (after 3 fails) user_id link_id now (lowered c given) db v f in
          ground (arith, g)
