-- ===== src/SshKey.antt =====
-- internal/services/sshkey/service.go: the SSH keys of the users.
pub mod Strength
pub mod Lookup
use Prim.Native.Char.{code}
use Prim.Native.String
use gitwise.Prelude.{
  ℕ, String, Bool, true, false, not, ◌&&◌, ◌||◌, Option, none, some, List, [], ◌∷◌, ◌++◌, ltb, leb,
  ◌==◌, if◌then◌else◌, str_eq, find, any, keep, map,
}
use gitwise.Text.{trim_space, is_space}
use gitwise.Action.{Action, Faults, pure, raise, gets, or_raise, modify, raise_if, ◌>>=◌, ◌>>◌}
use gitwise.Db.{Db, UserRow, SshKeyRow}
use gitwise.Db.Order.{order_by}
use gitwise.Auth.{Crypto}
use gitwise.Auth.Totp.{has_id}

pub data Error : Type 0 where
  invalid_key weak_key duplicate_key key_not_found internal : Error

-- the Go type of the key inside, `ssh.CryptoPublicKey`: an RSA modulus or a curve of so many bits,
-- another key, or none that can be looked at
pub data KeyKind : Type 0 where
  rsa ecdsa : ℕ → KeyKind
  other opaque : KeyKind

-- `ssh.PublicKey`; `wire` is what `Marshal` gives
pub record PublicKey : Type 0 where
  pub kind : KeyKind
  pub type_name : String
  pub wire : String

pub record CreateSshKeyRequest : Type 0 where
  pub title : String
  pub public_key : String

pub record SshKey : Type 0 where
  pub row : SshKeyRow
  pub key_type : String

abbrev pub min_rsa_bits : ℕ
min_rsa_bits = 3_072

abbrev pub strong_kind : KeyKind → String → Bool
strong_kind (rsa bits) type_name = not (ltb bits min_rsa_bits)
strong_kind (ecdsa bits) type_name =
    not (not (bits == 256) && not (bits == 384) && not (bits == 521))
strong_kind other type_name = not (str_eq type_name "ssh-dss")
strong_kind opaque type_name = false

-- `validateKeyStrength`; `true` is the nil error
unfoldable pub validate_key_strength : PublicKey → Bool
validate_key_strength k = strong_kind k.kind k.type_name

-- the first word of a text
pub first_word : String → String
first_word (String.[]) = ""
first_word (String.◌∷◌ c s) =
    let rest = first_word s in if is_space (code c) then "" else String.◌∷◌ c rest

-- `ssh.ParseAuthorizedKey`, without the comment
module _ (c : Crypto) (sha256 : String → List ℕ) (parse : String → Option PublicKey) where
  abbrev pub fingerprint : PublicKey → String
  fingerprint k = String.◌++◌ "SHA256:" (c.raw_b64_encode (sha256 k.wire))

  abbrev pub clashes : SshKeyRow → SshKeyRow → Bool
  clashes new k = k.id == new.id || str_eq k.fingerprint new.fingerprint

  unfoldable pub add : Faults → ℕ → ℕ → ℕ → CreateSshKeyRequest → Action Db Error SshKey
  add fails id now user_id req = do
    let title = trim_space req.title
    raise_if (str_eq title "") invalid_key
    let text = trim_space req.public_key
    raise_if (str_eq text "") invalid_key
    parsed ← or_raise (parse text) invalid_key
    raise_if (not (validate_key_strength parsed)) weak_key
    let k : SshKeyRow = record {
      id = id;
      user_id = user_id;
      name = title;
      fingerprint = fingerprint parsed;
      public_key = text;
      created_at = now;
    }
    raise_if (fails 0) internal
    taken ← gets (λ db. any (clashes k) db.ssh_keys)
    raise_if taken duplicate_key
    known ← gets (λ db. any (has_id user_id) db.users)
    raise_if (not known) internal
    modify (λ db. record db { ssh_keys = db.ssh_keys ++ k ∷ [] })
    pure (record { row = k; key_type = parsed.type_name })

  abbrev key_type_of : String → Option PublicKey → String
  key_type_of text (some k) = k.type_name
  key_type_of text none =
      let word = first_word (trim_space text) in if str_eq word "" then "unknown" else word

  unfoldable pub parse_key_type : String → String
  unfolding first_word
  parse_key_type text = key_type_of text (parse text)

  unfoldable pub list : Faults → ℕ → Action Db Error (List SshKey)
  unfolding parse_key_type
  list fails user_id = do
    raise_if (fails 0) internal
    gets λ db.
        map (λ (k : SshKeyRow). record { row = k; key_type = parse_key_type k.public_key })
          (order_by (λ a b. leb b.created_at a.created_at)
            (keep (λ k. k.user_id == user_id) db.ssh_keys))

abbrev pub is_key : ℕ → ℕ → SshKeyRow → Bool
is_key user_id id k = k.id == id && k.user_id == user_id

unfoldable pub delete : Faults → ℕ → ℕ → Action Db Error (Unit {0})
delete fails user_id id = do
  raise_if (fails 0) internal
  affected ← gets (λ db. any (is_key user_id id) db.ssh_keys)
  raise_if (not affected) key_not_found
  modify (λ db. record db { ssh_keys = keep (λ k. not (is_key user_id id k)) db.ssh_keys })

-- the JOIN: a key with the fingerprint, and its user
unfoldable pub join_user : String → List UserRow → List SshKeyRow → Option UserRow
join_user fingerprint us [] = none
join_user fingerprint us (k ∷ ks) =
    let rest = join_user fingerprint us ks in
    if str_eq k.fingerprint fingerprint
    then elim (find (has_id k.user_id) us) [ none ↦ rest | some u ↦ some u ]
    else rest

unfoldable pub lookup_by_fingerprint : Faults → String → Action Db Error String
unfolding join_user
lookup_by_fingerprint fails fingerprint = do
  raise_if (fails 0) internal
  found ← gets (λ db. join_user fingerprint db.users db.ssh_keys)
  u ← or_raise found key_not_found
  pure u.username
