-- ===== src/Tests/Logins.antt =====
-- Logins, second factors and recovery codes, with ciphers that count letters.
use Prim.Native.Char.{code}
use mathlib.Core.List.{Memᴰ}
use gitwise.Prelude.{
  ℕ, zero, suc, ◌≤◌, String, Bool, true, false, Option, none, some, List, [], ◌∷◌, ◌≡◌, refl, sym,
  ap, ◌∙◌, inl, inr, ◌==◌, if◌then◌else◌, str_eq, str_eq_iff, length, Bool-cases,
}
use gitwise.Action.{no_faults}
use gitwise.Db.{UserRow}
use gitwise.Text.Trim.{has_space}
use gitwise.Auth.{Crypto, World}
use gitwise.Auth.Recovery.{remaining}
use gitwise.Auth.Totp.{recovery_hashes, max_attempts}
use gitwise.Auth.Login.{login, verify_2fa}
use gitwise.Auth.Safety.{OnlyByCode, verify_2fa-OnlyByCode}
use gitwise.Auth.Passwords.{OnlyByPassword, login-OnlyByPassword}
use gitwise.Auth.Attempts.{misses, misses_bound}
use gitwise.Auth.Codes.{IsSound, has_colon, remaining-recovery_hashes}
use gitwise.Tests.Sample.{sample, person}

-- a byte as so many letters, and a letter that ends it
byte : ℕ → String → String
byte zero s = String.◌∷◌ "b" s
byte (suc n) s = String.◌∷◌ "a" (byte n s)

pub bytes : List ℕ → String
bytes [] = ""
bytes (b ∷ bs) = byte b (bytes bs)

abbrev grow : List ℕ → List ℕ
grow [] = []
grow (b ∷ bs) = suc b ∷ bs

pub read : String → List ℕ
read (String.[]) = []
read (String.◌∷◌ c s) = let rest = read s in if code c == b'b' then 0 ∷ rest else grow rest

pub count : String → ℕ
count (String.[]) = 0
count (String.◌∷◌ c s) = suc (count s)

pub copies : ℕ → ℕ → List ℕ
copies zero x = []
copies (suc n) x = x ∷ copies n x

abbrev pub letters : Crypto
letters = record {
  argon2 = λ s salt t m p n. copies n (count s);
  hex_encode = bytes;
  hex_decode = λ s. some (read s);
  raw_b64_encode = bytes;
  raw_b64_decode = λ s. some (3 ∷ []);
  scan_params = λ s. some (1, 1, 1);
  nonce_size = 0;
  gcm_seal = λ k n s. [];
  gcm_open = λ k n bs. some "seed";
  totp_validate = λ now given secret. str_eq given "123456";
  to_lower = λ s. s;
  ttl = λ n. n;
}

read-byte : (n : ℕ) (s : String) → read (byte n s) ≡ n ∷ read s
unfolding read byte
read-byte zero s = refl
read-byte (suc n) s = ap grow (read-byte n s)

read-bytes : (bs : List ℕ) → read (bytes bs) ≡ bs
unfolding bytes read
read-bytes [] = refl
read-bytes (b ∷ bs) = read-byte b (bytes bs) ∙ ap (◌∷◌ b) (read-bytes bs)

byte_colon : (n : ℕ) (s : String) → has_colon s ≡ false → has_colon (byte n s) ≡ false
unfolding byte has_colon
byte_colon zero s h = h
byte_colon (suc n) s h = byte_colon n s h

bytes_colon : (bs : List ℕ) → has_colon (bytes bs) ≡ false
unfolding bytes has_colon
bytes_colon [] = refl
bytes_colon (b ∷ bs) = byte_colon b (bytes bs) (bytes_colon bs)

byte_space : (n : ℕ) (s : String) → has_space s ≡ false → has_space (byte n s) ≡ false
unfolding byte has_space
byte_space zero s h = h
byte_space (suc n) s h = byte_space n s h

bytes_space : (bs : List ℕ) → has_space (bytes bs) ≡ false
unfolding bytes has_space
bytes_space [] = refl
bytes_space (b ∷ bs) = byte_space b (bytes bs) (bytes_space bs)

is_nil : String → Bool
is_nil (String.[]) = true
is_nil (String.◌∷◌ c s) = false

byte_is_full : (n : ℕ) (s : String) → is_nil (byte n s) ≡ false
unfolding byte is_nil
byte_is_full zero s = refl
byte_is_full (suc n) s = refl

bytes_are_full : (b : ℕ) (bs : List ℕ) → str_eq (bytes (b ∷ bs)) "" ≡ false
unfolding bytes is_nil
bytes_are_full b bs = elim (Bool-cases (str_eq (bytes (b ∷ bs)) "")) [
  | inl e ↦
      let same : bytes (b ∷ bs) ≡ "" = (str_eq_iff (bytes (b ∷ bs)) "").0 e in
      let clash : false ≡ true = sym (byte_is_full b (bytes bs)) ∙ ap is_nil same in cc
  | inr e ↦ e
]

length-copies : (n x : ℕ) → length (copies n x) ≡ n
unfolding copies
length-copies zero x = refl
length-copies (suc n) x = ap suc (length-copies n x)

letters-IsSound : IsSound letters
letters-IsSound = record {
  decodes = λ bs. ap some (read-bytes bs);
  no_colon = bytes_colon;
  no_space = bytes_space;
  is_full = bytes_are_full;
  argon2_length = λ s salt t m p n. length-copies n (count s);
}

remaining-recovery_hashes_example :
    (rest : List String) × (remaining letters
        (bytes (2 ∷ []))
        (recovery_hashes letters ((1 ∷ [], []) ∷ (2 ∷ [], 7 ∷ []) ∷ []))
      ≡ some rest)
    × (suc (length rest) ≡ 2)
remaining-recovery_hashes_example =
    remaining-recovery_hashes letters letters-IsSound ((1 ∷ [], []) ∷ (2 ∷ [], 7 ∷ []) ∷ []) 2 []
      (7 ∷ []) (Memᴰ.tail (Memᴰ.head refl))

-- a user with a password, and one with a second factor
abbrev cy : UserRow
cy = record (person 3 "cy" "cy@x") { password = some "$argon2id$v$m$s$h" }

abbrev dee : UserRow
dee = record (person 4 "dee" "dee@x") { totp_secret = some "sealed"; totp_enabled = true }

abbrev start : World
start = record {
  db = record sample { users = cy ∷ dee ∷ [] };
  pending = record { token = "t"; user_id = 4; attempts = 0; expires = 9 } ∷ [];
  sessions = [];
}

login-OnlyByPassword_example :
    OnlyByPassword letters true 5
      (some "s")
      "cy"
      "abc"
      start
      (login letters true no_faults 5 none (some "s") "cy" "abc" start).1
login-OnlyByPassword_example =
    login-OnlyByPassword letters true no_faults 5 none (some "s") "cy" "abc" start

verify_2fa-OnlyByCode_example :
    OnlyByCode letters
      (some [])
      false
      5
      (some "s")
      "t"
      "123456"
      start
      (verify_2fa letters (some []) no_faults 5 (some "s") "123456" (some "t") start).1
verify_2fa-OnlyByCode_example =
    verify_2fa-OnlyByCode letters (some []) no_faults 5 (some "s") (some "t") "123456" start

abbrev guesses : List (ℕ × Option String × String)
guesses = (5, none, "1") ∷ (5, none, "2") ∷ (6, none, "3") ∷ []

misses_bound_example : misses letters (some []) "t" start guesses ≤ max_attempts
misses_bound_example = misses_bound letters (some []) "t" start guesses refl
