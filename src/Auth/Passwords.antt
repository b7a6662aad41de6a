-- ===== src/Auth/Passwords.antt =====
-- What it takes to get a session from `Login`.
use gitwise.Prelude.{
  ℕ, String, Bool, true, false, Option, some, ◌≡◌, ◌⊎◌, inl, inr, arith, find, Option-cases,
  Bool-cases,
}
use gitwise.Action.{Faults}
use gitwise.Db.{Db, UserRow}
use gitwise.Auth.{Crypto, World, verify_password}
use gitwise.Auth.Totp.{has_id, stored, is_enabled, store_pending_auth}
use gitwise.Auth.Login.{has_login, authenticate, create_session, login}
use gitwise.Auth.Safety.{opens}

module _ (c : Crypto) where
  -- the user's password is right, and the account has no second factor, if there is a service for it
  pub record IsPasswordLogin (has_service : Bool) (db : Db) (name password : String) (u : UserRow)
      : Type 0 where
    pub named : find (has_login c (c.to_lower name)) db.users ≡ some u
    pub knows : verify_password c password (stored u.password) ≡ true
    pub single :
        has_service ≡ true
        → (u' : UserRow) → find (has_id u.id) db.users ≡ some u'
        → u'.totp_enabled ≡ false

  -- the sessions stay, or one is added by a password
  abbrev pub OnlyByPassword : Bool → ℕ → Option String → String → String → World → World → Type 0
  OnlyByPassword has_service now sid name password w w' =
      (w'.sessions ≡ w.sessions)
      ⊎ ((u : UserRow) × IsPasswordLogin has_service w.db name password u
          × (w'.sessions ≡ opens now sid u.id w.sessions))

  module _ (has_service : Bool) (fails : Faults) (now : ℕ) (token sid : Option String)
      (name password : String) (w : World) where
    -- whether the session was opened, once the password and the second factor are settled
    Either : UserRow → Type 0
    Either u =
        ((login c has_service fails now token sid name password w).1.sessions ≡ w.sessions)
        ⊎ ((login c has_service fails now token sid name password w).1.sessions
            ≡ opens now sid u.id w.sessions)

    right_password :
        (u : UserRow)
        → find (has_login c (c.to_lower name)) w.db.users ≡ some u
        → verify_password c password (stored u.password) ≡ true
        → has_service ≡ false
        → Either u
    unfolding Either login authenticate create_session
    right_password u e right off = elim (Option-cases sid) [
      | inl n ↦ inl (ground arith)
      | inr (s, d) ↦ ground arith
    ]

    -- `Login` opens a session only for the user of that name or address, with the right password,
    -- and only if the second factor is off for the user or the server has no service for second
    -- factors. Otherwise the sessions stay as they are.
    pub login-OnlyByPassword :
        OnlyByPassword has_service now sid name password w
          (login c has_service fails now token sid name password w).1
    unfolding login authenticate is_enabled create_session store_pending_auth Either
    login-OnlyByPassword = elim (Option-cases (find (has_login c (c.to_lower name)) w.db.users)) [
      | inl e ↦ inl (ground arith)
      | inr (u, e) ↦ elim (Bool-cases (verify_password c password (stored u.password))) [
        | inr wrong ↦ inl (ground arith)
        | inl right ↦ elim (Bool-cases has_service) [
          | inr off ↦ elim (right_password u e right off) [
            | inl same ↦ inl same
            | inr more ↦ inr (u, record { named = e; knows = right; single = λ on v g. cc }, more)
          ]
          | inl on ↦ elim (Option-cases (find (has_id u.id) w.db.users)) [
            | inl lost ↦ inl (ground arith)
            | inr (u', f) ↦ elim (Bool-cases u'.totp_enabled) [
              | inl enabled ↦ inl (ground arith)
              | inr single ↦
                  let either : Either u = elim (Option-cases sid) [
                    | inl n ↦ inl (ground arith)
                    | inr (s, d) ↦ ground arith
                  ] in
                  elim either [
                    | inl same ↦ inl same
                    | inr more ↦
                        inr (u, record { named = e; knows = right; single = λ h v g. cc }, more)
                  ]
            ]
          ]
        ]
      ]
    ]
