-- ===== src/Auth/Safety.antt =====
-- What it takes to get a session from `Verify2FA`.
use gitwise.Prelude.{
  ℕ, ◌<◌, String, Bool, true, false, not, Option, none, some, List, [], ◌∷◌, ◌++◌, ◌≡◌, ap, ◌∙◌,
  ◌⊎◌, inl, inr, arith, leb, str_eq, find, keep, if◌then◌else◌, Option-cases, Bool-cases,
}
use gitwise.Action.{ok, Faults, after, Result-cases}
use gitwise.Db.{Db, UserRow}
use gitwise.Auth.{Crypto, Pending, Session, World, is_pending, without}
use gitwise.Auth.Recovery.{remaining, match_and_consume_recovery_code}
use gitwise.Auth.Totp.{
  max_attempts, has_id, stored, is_totp, verify, validate_pending_auth, increment_attempts,
  consume_pending_auth,
}
use gitwise.Auth.Login.{get_by_id, create_session, opened, finish, verify_2fa}
use gitwise.Auth.Stages.{
  Outcome, pair_eq, checked, verify_2fa_refuses, verify_2fa_stops, verify_2fa-finish,
}

-- the sessions, with one more for the user, or none more
abbrev pub opens : ℕ → Option String → ℕ → List Session → List Session
opens now none user_id ss = ss
opens now (some sid) user_id ss =
    keep (λ s. not (str_eq s.id sid)) ss ++ opened now sid user_id ∷ []

module _ (c : Crypto) where
  -- the code is one of the authenticator's, or a recovery code that is not used yet
  abbrev pub Proves : List ℕ → ℕ → String → UserRow → Type 0
  Proves k now code u =
      (is_totp c k now code u ≡ true)
      ⊎ ((rest : List String) × (remaining c code u.recovery_codes ≡ some rest))

  -- the token is pending, for this user, and has attempts left
  abbrev pub IsPending : ℕ → String → List Pending → ℕ → Type 0
  IsPending now token ps user_id =
      (p : Pending) × (find (is_pending now token) ps ≡ some p)
      × (p.attempts < max_attempts)
      × (p.user_id ≡ user_id)

  -- the sessions stay, or one is added by a code for a pending token, which is deleted if it can be
  abbrev pub OnlyByCode :
      Option (List ℕ) → Bool → ℕ → Option String → String → String → World → World → Type 0
  OnlyByCode key lost now sid token code w w' =
      (w'.sessions ≡ w.sessions)
      ⊎ ((k : List ℕ) × (u : UserRow) × (user_id : ℕ) × (key ≡ some k)
          × IsPending now token w.pending user_id
          × (find (has_id user_id) w.db.users ≡ some u)
          × Proves k now code u
          × (w'.sessions ≡ opens now sid user_id w.sessions)
          × (w'.pending ≡ (if lost then w.pending else without token w.pending)))

  validate_keeps_sessions :
      (fails : Faults) (now : ℕ) (token : String) (w : World)
      → (validate_pending_auth fails now token w).1.sessions ≡ w.sessions
  unfolding validate_pending_auth
  validate_keeps_sessions fails now token w =
      elim (Option-cases (find (is_pending now token) w.pending)) [
        | inl e ↦ ground arith
        | inr (p, e) ↦ ground arith
      ]

  verify-Proves :
      (key : Option (List ℕ)) (fails : Faults) (now user_id : ℕ) (code : String) (db : Db)
      → (verify c key fails now user_id code db).0 ≡ ok true
      → (k : List ℕ) × (u : UserRow) × (key ≡ some k)
        × (find (has_id user_id) db.users ≡ some u)
        × Proves k now code u
  unfolding verify match_and_consume_recovery_code
  verify-Proves key fails now user_id code db h = elim (Option-cases key) [
    | inl e ↦ absurd (ground arith)
    | inr (k, e) ↦ elim (Option-cases (find (has_id user_id) db.users)) [
      | inl f ↦ absurd (ground arith)
      | inr (u, f) ↦ elim (Bool-cases (is_totp c k now code u)) [
        | inl right ↦ (k, u, e, f, inl right)
        | inr wrong ↦ elim (Option-cases (remaining c code u.recovery_codes)) [
          | inl g ↦ absurd (ground arith)
          | inr (rest, g) ↦ (k, u, e, f, inr (rest, g))
        ]
      ]
    ]
  ]

  pub validate_pending :
      (fails : Faults) (now user_id : ℕ) (token : String) (w : World)
      → (validate_pending_auth fails now token w).0 ≡ ok user_id
      → IsPending now token w.pending user_id × ((validate_pending_auth fails now token w).1 ≡ w)
  unfolding validate_pending_auth
  validate_pending fails now user_id token w h =
      elim (Option-cases (find (is_pending now token) w.pending)) [
        | inl e ↦ absurd (ground arith)
        | inr (p, e) ↦ elim (Bool-cases (leb max_attempts p.attempts)) [
          | inl full ↦ absurd (ground arith)
          | inr left ↦ ((p, e, ground arith, ground arith), ground arith)
        ]
      ]

  -- what a right code does
  pub finish-opens :
      (fails : Faults) (now user_id : ℕ) (sid : Option String) (token : String) (w : World)
      → (((finish c fails now sid token user_id true w).1.sessions ≡ w.sessions)
          ⊎ ((finish c fails now sid token user_id true w).1.sessions
              ≡ opens now sid user_id w.sessions))
        × ((finish c fails now sid token user_id true w).1.pending
            ≡ (if fails 0 then w.pending else without token w.pending))
  unfolding consume_pending_auth create_session get_by_id
  finish-opens fails now user_id sid token w =
      elim (Option-cases (find (has_id user_id) w.db.users)) [
        | inl lost ↦ elim sid [
          | none ↦ (ground arith, ground arith)
          | some s ↦ (ground arith, ground arith)
        ]
        | inr (u, e) ↦ elim sid [
          | none ↦ (ground arith, ground arith)
          | some s ↦ (ground arith, ground arith)
        ]
      ]

  module _ (key : Option (List ℕ)) (fails : Faults) (now : ℕ) (sid cookie : Option String)
      (code : String) (w : World) where
    abbrev sessions_of : Outcome → List Session
    sessions_of r = r.1.sessions

    -- `Verify2FA` opens a session only for the user of a pending token that has attempts left, who
    -- gives a code of the authenticator or an unused recovery code. The token is gone then, unless
    -- its deletion fails. Otherwise the sessions stay as they are.
    pub verify_2fa-OnlyByCode :
        OnlyByCode key
          (fails 4)
          now
          sid
          (stored cookie)
          code
          w
          (verify_2fa c key fails now sid code cookie w).1
    unfolding verify_2fa increment_attempts
    verify_2fa-OnlyByCode = elim (Bool-cases (str_eq code "")) [
      | inl e ↦ inl (ground arith)
      | inr e ↦ elim (Bool-cases (str_eq (stored cookie) "")) [
        | inl f ↦ inl (ground arith)
        | inr f ↦ elim (Result-cases (validate_pending_auth fails now (stored cookie) w).0) [
          | inr (x, g) ↦ inl (
              ap sessions_of (verify_2fa_refuses c key fails now sid cookie code w e f x g)
              ∙ validate_keeps_sessions fails now (stored cookie) w)
          | inl (user_id, g) ↦
              let (p, same) = validate_pending fails now user_id (stored cookie) w g in
              let pending =
                pair_eq (validate_pending_auth fails now (stored cookie) w) (ok user_id) w g same in
              elim (Result-cases (verify c key (after 2 fails) now user_id code w.db).0) [
                | inr (x, h) ↦ inl (
                    ap sessions_of
                      (verify_2fa_stops c key fails now sid cookie code w e f user_id pending x h))
                | inl (false, h) ↦ inl (
                    ap sessions_of (
                      verify_2fa-finish c key fails now sid cookie code w e f user_id pending false
                        h)
                    ∙ ground arith)
                | inl (true, h) ↦
                    let done =
                      verify_2fa-finish c key fails now sid cookie code w e f user_id pending true
                        h in
                    let (k, u, i, j, proof) =
                      verify-Proves key (after 2 fails) now user_id code w.db h in
                    let (either, gone) =
                      finish-opens (after 4 fails) now user_id sid (stored cookie)
                        (checked c key fails now sid cookie code w user_id) in
                    elim either [
                      | inl still ↦ inl (ap sessions_of done ∙ still)
                      | inr more ↦ inr (
                        k,
                        u,
                        user_id,
                        i,
                        p,
                        j,
                        proof,
                        ap sessions_of done ∙ more,
                        ap (λ (r : Outcome). r.1.pending) done ∙ gone,
                      )
                    ]
              ]
        ]
      ]
    ]
