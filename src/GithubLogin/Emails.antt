-- ===== src/GithubLogin/Emails.antt =====
-- Which address a login at GitHub brings along.
use mathlib.Core.List.{Memᴰ}
use gitwise.Prelude.{
  String, true, false, ◌&&◌, some, List, ◌≡◌, ap, sym, subst, ◌∙◌, ◌⊎◌, inl, inr, arith, ◌==◌,
  str_eq, find, find_sound, find-Mem, Option-cases, Bool-cases,
}
use gitwise.GithubLogin.{
  Github, GithubUser, EmailEntry, Reply, asks_user, asks_emails, no_reply, pick_email,
  fetch_primary_email, with_email, token_of, callback_uri, exchanges, fetch_github_user,
  exchange_github_code,
}

-- an address that GitHub verified and lists for the token, or the one that GitHub makes of the login
abbrev pub IsListed : Github → String → String → String → Type 0
IsListed g token login email =
    (email ≡ no_reply login)
    ⊎ ((r : Reply) × (es : List EmailEntry) × (e : EmailEntry) × (g.answer (asks_emails token)
          ≡ some r)
        × (g.decode_emails r.body ≡ some es)
        × Memᴰ e es
        × (e.verified ≡ true)
        × (e.email ≡ email))

-- the profile's own address, if it has one, or a listed one
abbrev pub HasAddress : Github → String → GithubUser → GithubUser → Type 0
HasAddress g token profile u =
    ((str_eq profile.email "" ≡ false) × (u.email ≡ profile.email))
    ⊎ ((str_eq profile.email "" ≡ true) × IsListed g token profile.login u.email)

abbrev Picked : List EmailEntry → String → String → Type 0
Picked es login email =
    (email ≡ no_reply login)
    ⊎ ((e : EmailEntry) × Memᴰ e es × (e.verified ≡ true) × (e.email ≡ email))

pick_email-Picked : (login : String) (es : List EmailEntry) → Picked es login (pick_email login es)
unfolding pick_email
pick_email-Picked login es =
    elim (Option-cases (find (λ (e : EmailEntry). e.primary && e.verified) es)) [
      | inr (e, f) ↦
          let both = find_sound (λ (x : EmailEntry). x.primary && x.verified) es e f in
          inr (
            e,
            find-Mem (λ (x : EmailEntry). x.primary && x.verified) es e f,
            ground arith,
            ground arith,
          )
      | inl f ↦ elim (Option-cases (find (λ (e : EmailEntry). e.verified) es)) [
        | inr (e, h) ↦ inr (
          e,
          find-Mem (λ (x : EmailEntry). x.verified) es e h,
          find_sound (λ (x : EmailEntry). x.verified) es e h,
          ground arith,
        )
        | inl h ↦ inl (ground arith)
      ]
    ]

module _ (g : Github) where
  fetch_primary_email-IsListed :
      (token login : String) → IsListed g token login (fetch_primary_email g token login)
  unfolding fetch_primary_email
  fetch_primary_email-IsListed token login = elim (Option-cases (g.answer (asks_emails token))) [
    | inl e ↦ inl (ground arith)
    | inr (r, e) ↦ elim (Bool-cases (r.status == 200)) [
      | inr f ↦ inl (ground arith)
      | inl f ↦ elim (Option-cases (g.decode_emails r.body)) [
        | inl h ↦ inl (ground arith)
        | inr (es, h) ↦
            let same : fetch_primary_email g token login ≡ pick_email login es = ground arith in
            elim (pick_email-Picked login es) [
              | inl p ↦ inl (same ∙ p)
              | inr (x, m, v, p) ↦ inr (r, es, x, e, h, m, v, p ∙ sym same)
            ]
      ]
    ]
  ]

  with_email-HasAddress :
      (token : String) (profile : GithubUser)
      → HasAddress g token profile (with_email g token profile)
  with_email-HasAddress token profile = elim (Bool-cases (str_eq profile.email "")) [
    | inr e ↦ inl (e, ground arith)
    | inl e ↦
        let same : fetch_primary_email g token profile.login ≡ (with_email g token profile).email =
          ground arith in
        inr (
          e,
          subst (IsListed g token profile.login) same
              (fetch_primary_email-IsListed token profile.login),
        )
  ]

  with_email-login :
      (token : String) (profile : GithubUser) → (with_email g token profile).login ≡ profile.login
  with_email-login token profile = ground arith

  with_email-id :
      (token : String) (profile : GithubUser) → (with_email g token profile).id ≡ profile.id
  with_email-id token profile = ground arith

  -- If `ExchangeGitHubCode` gives a user and a token, then GitHub gave this token for the code and, for the
  -- token, this user's profile, and the user has the address of the profile. If the profile has none,
  -- it is one that GitHub lists for the token as verified, or the address without reply of the login.
  pub exchange_github_code-HasAddress :
      (base code token : String) (u : GithubUser)
      → exchange_github_code g base code ≡ some (u, token)
      → (cb : String) × (r : Reply) × (profile : GithubUser) × (token_of g
            (g.answer (exchanges code cb))
          ≡ some token)
        × (g.answer (asks_user token) ≡ some r)
        × (g.decode_user r.body ≡ some profile)
        × (u.login ≡ profile.login)
        × (u.id ≡ profile.id)
        × HasAddress g token profile u
  unfolding exchange_github_code fetch_github_user
  exchange_github_code-HasAddress base code token u h = elim (Option-cases (callback_uri g base)) [
    | inl e ↦ absurd (ground arith)
    | inr (cb, e) ↦ elim (Option-cases (token_of g (g.answer (exchanges code cb)))) [
      | inl f ↦ absurd (ground arith)
      | inr (t, f) ↦ elim (Option-cases (g.answer (asks_user t))) [
        | inl k ↦ absurd (ground arith)
        | inr (r, k) ↦ elim (Bool-cases (r.status == 200)) [
          | inr st ↦ absurd (ground arith)
          | inl st ↦ elim (Option-cases (g.decode_user r.body)) [
            | inl d ↦ absurd (ground arith)
            | inr (profile, d) ↦
                let got : exchange_github_code g base code ≡ some (with_email g t profile, t) =
                  ground arith in
                let same : t ≡ token = cc in
                let made : with_email g t profile ≡ u = cc in
                (
                  cb,
                  r,
                  profile,
                  f ∙ ap some same,
                  ap (λ (x : String). g.answer (asks_user x)) (sym same) ∙ k,
                  d,
                  ap (λ (x : GithubUser). x.login) (sym made) ∙ with_email-login t profile,
                  ap (λ (x : GithubUser). x.id) (sym made) ∙ with_email-id t profile,
                  subst (λ (x : String). HasAddress g x profile u) same
                      (subst (HasAddress g t profile) made (with_email-HasAddress t profile)),
                )
          ]
        ]
      ]
    ]
  ]
