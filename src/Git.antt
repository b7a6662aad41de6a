-- ===== src/Git.antt =====
-- internal/git/service.go: the checks of paths and branch names, and what the pull request service
-- calls of the repositories on disk. The operations on disk are an interface: they read and write
-- through go-git, which is no part of the program.
pub mod Names
use Prim.Native.Char.{code}
use gitwise.Prelude.{
  ℕ, String, Bool, true, false, not, ◌&&◌, ◌||◌, Option, List, ltb, ◌==◌, if◌then◌else◌, str_eq,
  all,
}
use gitwise.Text.{byte_len}
use gitwise.Text.Names.{branch_name_re}
use gitwise.Db.{FileStat}

-- `strings.ContainsRune`
abbrev pub has_char : ℕ → String → Bool
has_char n String.[] = false
has_char n (String.◌∷◌ c s) = code c == n || has_char n s

abbrev pub starts_dot : String → Bool
starts_dot String.[] = false
starts_dot (String.◌∷◌ c s) = code c == b'.'

-- `strings.Contains(s, "..")`
abbrev pub has_dots : String → Bool
has_dots String.[] = false
has_dots (String.◌∷◌ c s) = code c == b'.' && starts_dot s || has_dots s

abbrev pub is_safe_part : String → Bool
is_safe_part p =
    not (str_eq p "" || str_eq p "." || str_eq p "..")
    && not (has_char b'/' p || has_char 92 p)
    && not (has_dots p)
    && not (has_char 0 p)

-- `true` is the nil error
unfoldable pub validate_path : List String → Bool
validate_path parts = all is_safe_part parts

unfoldable pub validate_branch_name : String → Bool
validate_branch_name name =
    if ltb (byte_len name) 1 || ltb 255 (byte_len name)
    then false
    else if has_dots name
        || has_char b'~' name
        || has_char b'^' name
        || has_char b':' name
        || has_char 32 name
        || has_char 0 name
    then false
    else branch_name_re name

-- the result of `CompareBranches` that the services read
pub record DiffResponse : Type 0 where
  pub files : List FileStat
  pub total_files : ℕ
  pub total_additions : ℕ
  pub total_deletions : ℕ

-- owner, repository and branches are named by texts; `false` and `none` are errors
pub record Git : Type 1 where
  pub Disk : Type 0
  pub resolve_ref : String → String → String → Disk → Bool
  pub compare_branches : String → String → String → String → Disk → Option DiffResponse
  pub merge_branches :
      String → String → String → String → String → String → String → String → Disk → Bool × Disk
  pub delete_branch : String → String → String → Disk → Bool × Disk
