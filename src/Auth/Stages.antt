-- ===== src/Auth/Stages.antt =====
-- The stages of `Verify2FA`, and where it stops.
use gitwise.Prelude.{ℕ, String, Bool, false, Option, List, ◌≡◌, refl, ap, ◌∙◌, str_eq}
use gitwise.Action.{Action, Result, ok, err, Faults, after, bind_ok, bind_err}
use gitwise.Db.{Db}
use gitwise.Auth.{Crypto, World}
use gitwise.Auth.Totp.{
  max_attempts, has_id, stored, is_totp, is_enabled, verify, store_pending_auth,
  validate_pending_auth, increment_attempts, consume_pending_auth,
}
use gitwise.Auth.Totp as Totp
use gitwise.Auth.Login.{
  Reply, reply, on_error, on_db, pending_status, finish, check_code, check_token, verify_2fa,
}

abbrev pub Outcome : Type 0
Outcome = Result Reply Reply × World

pub pair_eq : {A B : Type 0} (p : A × B) (a : A) (b : B) → p.0 ≡ a → p.1 ≡ b → p ≡ (a, b)
pair_eq p a b e f = λ i. (e i, f i)

module _ {S E A : Type 0} (answer : E → Reply) (m : Action S E A) (s s' : S) where
  pub on_error_ok : (a : A) → m s ≡ (ok a, s') → on_error answer m s ≡ (ok a, s')
  on_error_ok a e =
      ap
        (λ (p : Result E A × S). elim p.0 as (λ x. Result Reply A × S) [
          | ok b ↦ (ok b, p.1)
          | err x ↦ (err (answer x), p.1)
        ])
        e

  pub on_error_err : (x : E) → m s ≡ (err x, s') → on_error answer m s ≡ (err (answer x), s')
  on_error_err x e =
      ap
        (λ (p : Result E A × S). elim p.0 as (λ y. Result Reply A × S) [
          | ok b ↦ (ok b, p.1)
          | err y ↦ (err (answer y), p.1)
        ])
        e

pub on_db_eq :
    {E A : Type 0} (m : Action Db E A) (w : World) (r : Result E A)
    → (m w.db).0 ≡ r
    → on_db m w ≡ (r, record w { db = (m w.db).1 })
on_db_eq m w r e = λ i. (e i, record w { db = (m w.db).1 })

module _ (c : Crypto) where
  module _ (key : Option (List ℕ)) (fails : Faults) (now : ℕ) (sid cookie : Option String)
      (code : String) (w : World) where
    -- the state when the code has been checked
    abbrev pub checked : ℕ → World
    checked user_id = record w { db = (verify c key (after 2 fails) now user_id code w.db).1 }

    module _ (given : str_eq code "" ≡ false) (sent : str_eq (stored cookie) "" ≡ false) where
      verify_2fa-check_token :
          verify_2fa c key fails now sid code cookie w
          ≡ check_token c key fails now sid code (stored cookie) w
      unfolding verify_2fa
      verify_2fa-check_token = rw (given, sent) refl

      pub verify_2fa_refuses :
          (x : Totp.Error)
          → (validate_pending_auth fails now (stored cookie) w).0 ≡ err x
          → verify_2fa c key fails now sid code cookie w
            ≡ (err (pending_status c x), (validate_pending_auth fails now (stored cookie) w).1)
      verify_2fa_refuses x g =
          verify_2fa-check_token
          ∙ bind_err (on_error (pending_status c) (validate_pending_auth fails now (stored cookie)))
              (check_code c key fails now sid code (stored cookie)) w _ (pending_status c x)
              (on_error_err (pending_status c) (validate_pending_auth fails now (stored cookie)) w _
                x (pair_eq (validate_pending_auth fails now (stored cookie) w) (err x) _ g refl))

      module _ (user_id : ℕ)
          (pending : validate_pending_auth fails now (stored cookie) w ≡ (ok user_id, w)) where
        verify_2fa-check_code :
            verify_2fa c key fails now sid code cookie w
            ≡ check_code c key fails now sid code (stored cookie) user_id w
        verify_2fa-check_code =
            verify_2fa-check_token
            ∙ bind_ok
                (on_error (pending_status c) (validate_pending_auth fails now (stored cookie)))
                (check_code c key fails now sid code (stored cookie)) w w user_id
                (on_error_ok (pending_status c) (validate_pending_auth fails now (stored cookie)) w
                  w user_id pending)

        abbrev checks : Action World Reply Bool
        checks =
            on_error {E = Totp.Error} (λ x. reply 500)
              (on_db (verify c key (after 2 fails) now user_id code))

        pub verify_2fa-finish :
            (valid : Bool)
            → (verify c key (after 2 fails) now user_id code w.db).0 ≡ ok valid
            → verify_2fa c key fails now sid code cookie w
              ≡ finish c (after 4 fails) now sid (stored cookie) user_id valid (checked user_id)
        verify_2fa-finish valid h =
            verify_2fa-check_code
            ∙ bind_ok checks (finish c (after 4 fails) now sid (stored cookie) user_id) w
                (checked user_id) valid
                (on_error_ok {E = Totp.Error} (λ x. reply 500)
                  (on_db (verify c key (after 2 fails) now user_id code)) w (checked user_id) valid
                  (on_db_eq (verify c key (after 2 fails) now user_id code) w (ok valid) h))

        pub verify_2fa_stops :
            (x : Totp.Error)
            → (verify c key (after 2 fails) now user_id code w.db).0 ≡ err x
            → verify_2fa c key fails now sid code cookie w ≡ (err (reply 500), checked user_id)
        verify_2fa_stops x h =
            verify_2fa-check_code
            ∙ bind_err checks (finish c (after 4 fails) now sid (stored cookie) user_id) w
                (checked user_id) (reply 500)
                (on_error_err {E = Totp.Error} (λ y. reply 500)
                  (on_db (verify c key (after 2 fails) now user_id code)) w (checked user_id) x
                  (on_db_eq (verify c key (after 2 fails) now user_id code) w (err x) h))
