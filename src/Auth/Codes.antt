-- ===== src/Auth/Codes.antt =====
-- The recovery codes that a setup gives out are the ones that a login takes.
use Prim.Native.Char.{code}
use Prim.Native.String
use text.Mathlib.TextLemmas.{nil-append, cons-append}
use mathlib.Core.List.{Memᴰ}
use gitwise.Prelude.{
  ℕ, suc, String, Bool, true, false, ◌||◌, some, List, [], ◌∷◌, ◌≡◌, refl, sym, ap, ◌∙◌, inl, inr,
  arith, ◌==◌, str_eq, length, Bool-cases,
}
use gitwise.Text.Trim.{has_space, trim_space_same}
use gitwise.Auth.{Crypto, split_colon, same_bytes}
use gitwise.Auth.Recovery.{
  hash_recovery_code, compare_hash, verify_recovery_code, take_match, remaining,
}
use gitwise.Auth.Totp.{recovery_hashes}

-- the text has a colon
unfoldable pub has_colon : String → Bool
has_colon (String.[]) = false
has_colon (String.◌∷◌ c s) = code c == b':' || has_colon s

-- What the libraries say of themselves: the text of bytes in hexadecimal digits is read back, has no
-- colon and no white space, and is empty for no bytes only; and Argon2 gives as many bytes as it
-- is asked for.
pub record IsSound (c : Crypto) : Type 0 where
  pub decodes : (bs : List ℕ) → c.hex_decode (c.hex_encode bs) ≡ some bs
  pub no_colon : (bs : List ℕ) → has_colon (c.hex_encode bs) ≡ false
  pub no_space : (bs : List ℕ) → has_space (c.hex_encode bs) ≡ false
  pub is_full : (b : ℕ) (bs : List ℕ) → str_eq (c.to_lower (c.hex_encode (b ∷ bs))) "" ≡ false
  pub argon2_length :
      (s : String) (salt : List ℕ) (t m p n : ℕ) → length (c.argon2 s salt t m p n) ≡ n

split_colon-append :
    (s t : String)
    → has_colon s ≡ false
    → split_colon (String.◌++◌ s (String.◌++◌ ":" t)) ≡ some (s, t)
unfolding split_colon has_colon
split_colon-append (String.[]) t h =
    rw (nil-append (String.◌++◌ ":" t), cons-append, nil-append t) refl
split_colon-append (String.◌∷◌ c s) t h =
    let rest : split_colon (String.◌++◌ s (String.◌++◌ ":" t)) ≡ some (s, t) =
      split_colon-append s t (ground arith) in
    rw cons-append (ground arith)

same_bytes_refl : (bs : List ℕ) → same_bytes bs bs ≡ true
same_bytes_refl [] = refl
same_bytes_refl (b ∷ bs) = ground (arith, same_bytes_refl bs)

module _ (c : Crypto) (law : IsSound c) where
  compare_same :
      (given : String) (salt hash : List ℕ)
      → c.argon2 given salt 1 32_768 2 (length hash) ≡ hash
      → compare_hash c given (some salt) (some hash) ≡ true
  compare_same given salt hash e = rw e (ground (arith, same_bytes_refl hash))

  verify_recovery_code-hash_recovery_code :
      (salt : List ℕ) (given : String)
      → verify_recovery_code c given (hash_recovery_code c salt given) ≡ true
  unfolding verify_recovery_code hash_recovery_code
  verify_recovery_code-hash_recovery_code salt given =
      let hash : List ℕ = c.argon2 given salt 1 32_768 2 32 in
      let same : c.argon2 given salt 1 32_768 2 (length hash) ≡ hash =
        ap (c.argon2 given salt 1 32_768 2) (law.argon2_length given salt 1 32_768 2 32) in
      rw (split_colon-append (c.hex_encode salt) (c.hex_encode hash) (law.no_colon salt))
        (rw (law.decodes salt, law.decodes hash) (compare_same given salt hash same))

  take_match_found :
      (given : String) (hashes : List String) (h : String)
      → Memᴰ h hashes
      → verify_recovery_code c given h ≡ true
      → (rest : List String) × (take_match c given hashes ≡ some rest)
        × (suc (length rest) ≡ length hashes)
  unfolding take_match
  take_match_found given [] h m e = elim m [ ]
  take_match_found given (x ∷ hashes) h m e = elim (Bool-cases (verify_recovery_code c given x)) [
    | inl here ↦ (hashes, rw here refl, refl)
    | inr there ↦ elim m [
      | Memᴰ.head same ↦
          let clash : true ≡ false = sym e ∙ (ap (verify_recovery_code c given) same ∙ there) in cc
      | Memᴰ.tail n ↦
          let (rest, f, l) = take_match_found given hashes h n e in
          (x ∷ rest, rw (there, f) refl, ap suc l)
    ]
  ]

  hash-Mem :
      (codes : List (List ℕ × List ℕ)) (bytes salt : List ℕ)
      → Memᴰ (bytes, salt) codes
      → Memᴰ (hash_recovery_code c salt (c.to_lower (c.hex_encode bytes))) (recovery_hashes c codes)
  hash-Mem [] bytes salt m = elim m [ ]
  hash-Mem (p ∷ codes) bytes salt (Memᴰ.head e) =
      Memᴰ.head
        (ap (λ (q : List ℕ × List ℕ). hash_recovery_code c q.1 (c.to_lower (c.hex_encode q.0))) e)
  hash-Mem (p ∷ codes) bytes salt (Memᴰ.tail m) = Memᴰ.tail (hash-Mem codes bytes salt m)

  -- Each recovery code that a setup draws, unless it has no bytes, is accepted against the hashes that
  -- the setup stores, and one hash less remains then.
  pub remaining-recovery_hashes :
      (codes : List (List ℕ × List ℕ)) (b : ℕ) (bs salt : List ℕ)
      → Memᴰ (b ∷ bs, salt) codes
      → (rest : List String) × (remaining c (c.hex_encode (b ∷ bs)) (recovery_hashes c codes)
          ≡ some rest)
        × (suc (length rest) ≡ length codes)
  remaining-recovery_hashes codes b bs salt m =
      let given = c.to_lower (c.hex_encode (b ∷ bs)) in
      let (rest, f, l) =
        take_match_found given (recovery_hashes c codes) (hash_recovery_code c salt given)
          (hash-Mem codes (b ∷ bs) salt m) (verify_recovery_code-hash_recovery_code salt given) in
      (
        rest,
        rw (trim_space_same (c.hex_encode (b ∷ bs)) (law.no_space (b ∷ bs)), law.is_full b bs) f,
        l ∙ length-hashes codes,
      )
    where
      length-hashes : (cs : List (List ℕ × List ℕ)) → length (recovery_hashes c cs) ≡ length cs
      length-hashes [] = refl
      length-hashes (p ∷ cs) = ap suc (length-hashes cs)
