-- ===== src/SshKey/Lookup.antt =====
-- A key that was added is found by its fingerprint.
use gitwise.Prelude.{
  ℕ, String, true, false, ◌||◌, Option, none, some, List, [], ◌∷◌, ◌++◌, ◌≡◌, refl, ap, subst, ◌∙◌,
  inl, inr, arith, ◌==◌, str_eq, str_eq_refl, find, any, Option-cases, Bool-cases,
}
use gitwise.Text.{trim_space}
use gitwise.Action.{Faults, no_faults, ok, err}
use gitwise.Db.{Db, UserRow, SshKeyRow}
use gitwise.Auth.{Crypto}
use gitwise.Auth.Totp.{has_id}
use gitwise.SshKey.{
  PublicKey, SshKey, CreateSshKeyRequest, key_not_found, add, join_user, lookup_by_fingerprint,
}
use gitwise.SshKey.Strength.{row}

module _ (us : List UserRow) (fp : String) (id : ℕ) where
  unused :
      (ks : List SshKeyRow)
      → any (λ (k : SshKeyRow). k.id == id || str_eq k.fingerprint fp) ks ≡ false
      → join_user fp us ks ≡ none
  unfolding join_user
  unused [] h = refl
  unused (k ∷ ks) h = ground (arith, unused ks)

  join_user-append :
      (ks : List SshKeyRow) (k : SshKeyRow) (u : UserRow)
      → join_user fp us ks ≡ none
      → str_eq k.fingerprint fp ≡ true
      → find (has_id k.user_id) us ≡ some u
      → join_user fp us (ks ++ k ∷ []) ≡ some u
  unfolding join_user
  join_user-append [] k u h e f = ground arith
  join_user-append (x ∷ ks) k u h e f = elim (Bool-cases (str_eq x.fingerprint fp)) [
    | inl g ↦ elim (Option-cases (find (has_id x.user_id) us)) [
      | inl n ↦ ground (arith, join_user-append ks k u)
      | inr (v, n) ↦ absurd (ground arith)
    ]
    | inr g ↦ ground (arith, join_user-append ks k u)
  ]

found_user :
    (id : ℕ) (us : List UserRow)
    → any (has_id id) us ≡ true
    → (u : UserRow) × (find (has_id id) us ≡ some u)
found_user id [] h = cc
found_user id (u ∷ us) h = elim (Bool-cases (has_id id u)) [
  | inl e ↦ (u, rw e refl)
  | inr e ↦ let (v, f) = found_user id us (ground arith) in (v, rw e f)
]

module _ (c : Crypto) (sha256 : String → List ℕ) (parse : String → Option PublicKey) where
  -- A key that `Add` stores for a user was not found before by its fingerprint, and afterwards the
  -- lookup gives the user's name, if no statement of the lookup fails.
  pub add-lookup_by_fingerprint :
      (fails : Faults) (id now user_id : ℕ) (req : CreateSshKeyRequest) (db : Db) (k : SshKey)
      → (add c sha256 parse fails id now user_id req db).0 ≡ ok k
      → ((lookup_by_fingerprint no_faults k.row.fingerprint db).0 ≡ err key_not_found)
        × (u : UserRow) × (find (has_id user_id) db.users ≡ some u)
        × ((lookup_by_fingerprint no_faults k.row.fingerprint
              (add c sha256 parse fails id now user_id req db).1).0
            ≡ ok u.username)
  unfolding add lookup_by_fingerprint
  add-lookup_by_fingerprint fails id now user_id req db k h =
      elim (Option-cases (parse (trim_space req.public_key))) [
        | inl e ↦ absurd (ground arith)
        | inr (p, e) ↦
            let r = row c sha256 parse id now user_id req p in
            let same : r ≡ k.row = ground arith in
            let fp : r.fingerprint ≡ k.row.fingerprint =
              ap (λ (x : SshKeyRow). x.fingerprint) same in
            let (u, f) = found_user user_id db.users (ground arith) in
            let none_yet : join_user r.fingerprint db.users db.ssh_keys ≡ none =
              unused db.users r.fingerprint id db.ssh_keys (ground arith) in
            let there : join_user r.fingerprint db.users (db.ssh_keys ++ r ∷ []) ≡ some u =
              join_user-append db.users r.fingerprint id db.ssh_keys r u none_yet
                (str_eq_refl r.fingerprint) f in
            let stored : (add c sha256 parse fails id now user_id req db).1
                ≡ record db { ssh_keys = db.ssh_keys ++ r ∷ [] } =
              ground arith in
            subst
              (λ (x : String).
                ((lookup_by_fingerprint no_faults x db).0 ≡ err key_not_found)
                × (v : UserRow) × (find (has_id user_id) db.users ≡ some v)
                × ((lookup_by_fingerprint no_faults x
                      (add c sha256 parse fails id now user_id req db).1).0
                    ≡ ok v.username))
              fp
              (
                ground arith,
                u,
                f,
                ap (λ (d : Db). (lookup_by_fingerprint no_faults r.fingerprint d).0) stored
                    ∙ (let o : (lookup_by_fingerprint no_faults r.fingerprint
                              (record db { ssh_keys = db.ssh_keys ++ r ∷ [] })).0
                            ≡ ok u.username =
                          ground arith in
                        o),
              )
      ]
