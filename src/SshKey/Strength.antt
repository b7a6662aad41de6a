-- ===== src/SshKey/Strength.antt =====
-- Which keys are stored, over every history of additions and deletions.
use gitwise.Prelude.{
  ℕ, ◌≤◌, String, true, false, not, Option, some, List, [], ◌∷◌, ◌++◌, ◌≡◌, refl, sym, subst, ◌⊎◌,
  inl, inr, arith, ◌==◌, str_eq, All, All-append, All-keep, Option-cases, Bool-cases,
}
use gitwise.Text.{trim_space}
use gitwise.Action.{Faults}
use gitwise.Db.{Db, SshKeyRow}
use gitwise.Auth.{Crypto}
use gitwise.SshKey.{
  KeyKind, rsa, ecdsa, other, opaque, PublicKey, CreateSshKeyRequest, fingerprint, is_key,
  strong_kind, validate_key_strength, add, delete,
}

-- RSA of at least 3,072 bits, ECDSA on one of the three curves, or another key that is not DSA
abbrev pub IsStrong : PublicKey → KeyKind → Type 0
IsStrong k (rsa bits) = 3_072 ≤ bits
IsStrong k (ecdsa bits) = (bits ≡ 256) ⊎ (bits ≡ 384) ⊎ (bits ≡ 521)
IsStrong k other = str_eq k.type_name "ssh-dss" ≡ false
IsStrong k opaque = ⊥

pub data Edit : Type 0 where
  adds : Faults → ℕ → ℕ → ℕ → CreateSshKeyRequest → Edit
  deletes : Faults → ℕ → ℕ → Edit

strong_kind-IsStrong :
    (p : PublicKey) (k : KeyKind) → strong_kind k p.type_name ≡ true → IsStrong p k
strong_kind-IsStrong p (rsa bits) h = ground arith
strong_kind-IsStrong p (ecdsa bits) h = elim (Bool-cases (bits == 256)) [
  | inl e ↦ inl (ground arith)
  | inr e ↦ elim (Bool-cases (bits == 384)) [
    | inl f ↦ inr (inl (ground arith))
    | inr f ↦ inr (inr (ground arith))
  ]
]
strong_kind-IsStrong p other h = ground arith
strong_kind-IsStrong p opaque h = cc

module _ (c : Crypto) (sha256 : String → List ℕ) (parse : String → Option PublicKey) where
  -- the stored text is a strong key, and the fingerprint is its own
  abbrev pub IsSound : SshKeyRow → Type 0
  IsSound k =
      (p : PublicKey) × (parse k.public_key ≡ some p)
      × (k.fingerprint ≡ fingerprint c sha256 parse p)
      × IsStrong p p.kind

  abbrev pub apply : Edit → Db → Db
  apply (adds fails id now user_id req) db = (add c sha256 parse fails id now user_id req db).1
  apply (deletes fails user_id id) db = (delete fails user_id id db).1

  pub apply_all : List Edit → Db → Db
  apply_all [] db = db
  apply_all (e ∷ es) db = apply_all es (apply e db)

  abbrev pub row : ℕ → ℕ → ℕ → CreateSshKeyRequest → PublicKey → SshKeyRow
  row id now user_id req p = record {
    id = id;
    user_id = user_id;
    name = trim_space req.title;
    fingerprint = fingerprint c sha256 parse p;
    public_key = trim_space req.public_key;
    created_at = now;
  }

  validate_key_strength-IsStrong :
      (p : PublicKey) → validate_key_strength p ≡ true → IsStrong p p.kind
  unfolding validate_key_strength
  validate_key_strength-IsStrong p h = strong_kind-IsStrong p p.kind h

  add-AreSound :
      (fails : Faults) (id now user_id : ℕ) (req : CreateSshKeyRequest) (db : Db)
      → All IsSound db.ssh_keys
      → All IsSound (add c sha256 parse fails id now user_id req db).1.ssh_keys
  unfolding add
  add-AreSound fails id now user_id req db k =
      elim (Option-cases (parse (trim_space req.public_key))) [
        | inl e ↦
            let q : (add c sha256 parse fails id now user_id req db).1 ≡ db = ground arith in
            subst (λ (d : Db). All IsSound d.ssh_keys) (sym q) k
        | inr (p, e) ↦ elim (Bool-cases (validate_key_strength p)) [
          | inr f ↦
              let q : (add c sha256 parse fails id now user_id req db).1 ≡ db = ground arith in
              subst (λ (d : Db). All IsSound d.ssh_keys) (sym q) k
          | inl f ↦
              let r = row id now user_id req p in
              let sound : All IsSound (db.ssh_keys ++ r ∷ []) =
                All-append IsSound db.ssh_keys (r ∷ []) k
                  ((p, e, refl, validate_key_strength-IsStrong p f), tt) in
              let q : ((add c sha256 parse fails id now user_id req db).1 ≡ db)
                  ⊎ ((add c sha256 parse fails id now user_id req db).1
                      ≡ record db { ssh_keys = db.ssh_keys ++ r ∷ [] }) =
                ground arith in
              elim q [
                | inl g ↦ subst (λ (d : Db). All IsSound d.ssh_keys) (sym g) k
                | inr g ↦ subst (λ (d : Db). All IsSound d.ssh_keys) (sym g) sound
              ]
        ]
      ]

  delete-AreSound :
      (fails : Faults) (user_id id : ℕ) (db : Db)
      → All IsSound db.ssh_keys
      → All IsSound (delete fails user_id id db).1.ssh_keys
  unfolding delete
  delete-AreSound fails user_id id db k =
      ground (arith, All-keep IsSound (λ x. not (is_key user_id id x)) db.ssh_keys k)

  -- Whatever sequence of `Add` and `Delete` is run on sound keys, whether the calls succeed or fail, each
  -- key that is stored is a text that the library reads as a public key with the fingerprint that is
  -- stored, and this key is RSA of at least 3,072 bits, ECDSA of 256, 384 or 521 bits, or of
  -- another type than DSA that can be looked at.
  pub apply_all-AreSound :
      (es : List Edit) (db : Db) → All IsSound db.ssh_keys → All IsSound (apply_all es db).ssh_keys
  unfolding apply_all
  apply_all-AreSound [] db k = k
  apply_all-AreSound (adds fails id now user_id req ∷ es) db k =
      apply_all-AreSound es (add c sha256 parse fails id now user_id req db).1
        (add-AreSound fails id now user_id req db k)
  apply_all-AreSound (deletes fails user_id id ∷ es) db k =
      apply_all-AreSound es (delete fails user_id id db).1 (delete-AreSound fails user_id id db k)
