-- ===== src/Git/Names.antt =====
-- Which names `ValidateBranchName` accepts.
use Prim.Native.Char.{Char}
use gitwise.Prelude.{◌≤◌, String, true, false, ◌≡◌, arith, Bool-cases, inl, inr}
use gitwise.Text.{is_alnum}
use gitwise.Text.Names.{branch_name_re, is_branch_char, EndsIn, size, ends_sound}
use gitwise.Git.{has_dots, validate_branch_name}

-- an alphanumeric character, characters of the branch class, and an alphanumeric character last
abbrev pub IsBranchName : String → Type 0
IsBranchName String.[] = ⊥
IsBranchName (String.◌∷◌ c s) =
    (is_alnum c ≡ true) × EndsIn is_branch_char is_alnum s × (size s ≤ 254)

branch_name_re-IsBranchName : (s : String) → branch_name_re s ≡ true → IsBranchName s
unfolding branch_name_re
branch_name_re-IsBranchName String.[] h = cc
branch_name_re-IsBranchName (String.◌∷◌ c s) h =
    ground (arith, ends_sound is_branch_char is_alnum 253 s)

-- An accepted branch name begins and ends with an alphanumeric character, has only characters of
-- the class in between, at least two and at most 255 in all, and no two dots in a row.
validate_branch_name-IsBranchName :
    (s : String) → validate_branch_name s ≡ true → IsBranchName s × (has_dots s ≡ false)
unfolding validate_branch_name
validate_branch_name-IsBranchName s h =
    let re : branch_name_re s ≡ true = ground arith in
    (branch_name_re-IsBranchName s re, ground arith)

-- A name of one character is refused, although the error says "1-255 characters".
one_character_refused : (c : Char) → validate_branch_name (String.◌∷◌ c String.[]) ≡ false
one_character_refused c = elim (Bool-cases (validate_branch_name (String.◌∷◌ c String.[]))) [
  | inl e ↦ absurd (validate_branch_name-IsBranchName (String.◌∷◌ c String.[]) e).0.1
  | inr e ↦ e
]
