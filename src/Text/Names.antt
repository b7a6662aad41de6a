-- ===== src/Text/Names.antt =====
-- The patterns that the services match names with, as Go's regexp reads them.
use Prim.Native.Char.{Char, code}
use Prim.Native.String.{[], ◌∷◌}
use gitwise.Prelude.{
  ℕ, zero, suc, ◌≤◌, String, Bool, true, false, ◌&&◌, ◌||◌, ◌≡◌, ◌==◌, leb, arith,
}
use gitwise.Text.{is_alnum, is_blank}

module _ (cls last : Char → Bool) where
  -- `C{0,n}L$`: at each character the match may end, or go on
  unfoldable pub ends : ℕ → String → Bool
  ends n [] = false
  ends zero (c ∷ s) = last c && is_blank s
  ends (suc n) (c ∷ s) = last c && is_blank s || cls c && ends n s

-- `[a-zA-Z0-9_-]`
abbrev pub is_slug : Char → Bool
is_slug c = is_alnum c || code c == b'_' || code c == b'-'

-- `[a-zA-Z0-9._-]`
abbrev pub is_org_char : Char → Bool
is_org_char c = is_alnum c || code c == b'.' || code c == b'_' || code c == b'-'

-- `[a-zA-Z0-9._/-]`
abbrev pub is_branch_char : Char → Bool
is_branch_char c = is_org_char c || code c == b'/'

-- `^[a-zA-Z0-9][a-zA-Z0-9_-]{0,98}[a-zA-Z0-9]$|^[a-zA-Z0-9]$`
unfoldable pub team_name_re : String → Bool
unfolding ends
team_name_re [] = false
team_name_re (c ∷ s) = is_alnum c && ends is_slug is_alnum 98 s || is_alnum c && is_blank s

-- `^[a-zA-Z0-9]([a-zA-Z0-9._-]{0,37}[a-zA-Z0-9])?$`
unfoldable pub org_name_re : String → Bool
unfolding ends
org_name_re [] = false
org_name_re (c ∷ s) = is_alnum c && (is_blank s || ends is_org_char is_alnum 37 s)

-- `^[a-zA-Z0-9][a-zA-Z0-9._-]{0,98}[a-zA-Z0-9]$`
unfoldable pub repo_name_re : String → Bool
unfolding ends
repo_name_re [] = false
repo_name_re (c ∷ s) = is_alnum c && ends is_org_char is_alnum 98 s

-- `^[a-zA-Z0-9]([a-zA-Z0-9._-]{0,37}[a-zA-Z0-9])?$`, of users
unfoldable pub username_re : String → Bool
unfolding ends
username_re [] = false
username_re (c ∷ s) = is_alnum c && (is_blank s || ends is_org_char is_alnum 37 s)

-- `^[a-zA-Z0-9][a-zA-Z0-9._/-]{0,253}[a-zA-Z0-9]$`
unfoldable pub branch_name_re : String → Bool
unfolding ends
branch_name_re [] = false
branch_name_re (c ∷ s) = is_alnum c && ends is_branch_char is_alnum 253 s

-- `[0-9a-fA-F]`
abbrev pub is_hex_digit : Char → Bool
is_hex_digit ch =
    let c = code ch in
    leb b'0' c && leb c b'9' || leb b'a' c && leb c b'f' || leb b'A' c && leb c b'F'

-- `[0-9a-fA-F]{n}$`
pub hex_digits : ℕ → String → Bool
hex_digits zero s = is_blank s
hex_digits (suc n) [] = false
hex_digits (suc n) (c ∷ s) = is_hex_digit c && hex_digits n s

-- `^#[0-9a-fA-F]{6}$`
unfoldable pub color_re : String → Bool
unfolding hex_digits
color_re [] = false
color_re (c ∷ s) = code c == b'#' && hex_digits 6 s

abbrev pub size : String → ℕ
size [] = 0
size (c ∷ s) = suc (size s)

-- every character but the last is of class `cls`, and the last of class `last`
abbrev pub EndsIn : (Char → Bool) → (Char → Bool) → String → Type 0
EndsIn cls last [] = ⊥
EndsIn cls last (c ∷ []) = last c ≡ true
EndsIn cls last (c ∷ d ∷ s) = (cls c ≡ true) × EndsIn cls last (d ∷ s)

module _ (cls last : Char → Bool) where
  pub ends_sound :
      (n : ℕ) (s : String) → ends cls last n s ≡ true → EndsIn cls last s × (size s ≤ suc n)
  unfolding ends
  ends_sound n [] h = cc
  ends_sound zero (c ∷ []) h = ground arith
  ends_sound zero (c ∷ d ∷ s) h = ground arith
  ends_sound (suc n) (c ∷ []) h = ground arith
  ends_sound (suc n) (c ∷ d ∷ s) h = ground (arith, ends_sound n (d ∷ s))

  pub ends_complete :
      (n : ℕ) (s : String) → EndsIn cls last s → size s ≤ suc n → ends cls last n s ≡ true
  unfolding ends
  ends_complete n [] h k = absurd h
  ends_complete zero (c ∷ []) h k = ground arith
  ends_complete zero (c ∷ d ∷ s) h k = absurd (omega arith)
  ends_complete (suc n) (c ∷ []) h k = ground arith
  ends_complete (suc n) (c ∷ d ∷ s) h k = ground (arith, ends_complete n (d ∷ s) h.1)
