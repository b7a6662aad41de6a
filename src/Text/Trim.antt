-- ===== src/Text/Trim.antt =====
-- A text without white space is its own trimmed text.
use Prim.Native.Char.{code}
use Prim.Native.String.{[], ◌∷◌}
use gitwise.Prelude.{String, Bool, false, ◌||◌, ◌≡◌, refl, ap, ◌∙◌, arith}
use gitwise.Text.{is_space, trim_left, trim_right, trim_space}

unfoldable pub has_space : String → Bool
has_space [] = false
has_space (c ∷ s) = is_space (code c) || has_space s

trim_right_same : (s : String) → has_space s ≡ false → trim_right s ≡ s
unfolding trim_right has_space
trim_right_same [] h = refl
trim_right_same (c ∷ s) h =
    let rest : trim_right s ≡ s = trim_right_same s (ground arith) in rw rest (ground arith)

trim_left_same : (s : String) → has_space s ≡ false → trim_left s ≡ s
unfolding trim_left has_space
trim_left_same [] h = refl
trim_left_same (c ∷ s) h =
    let rest : trim_left s ≡ s = trim_left_same s (ground arith) in rw rest (ground arith)

pub trim_space_same : (s : String) → has_space s ≡ false → trim_space s ≡ s
unfolding trim_space
trim_space_same s h = ap trim_left (trim_right_same s h) ∙ trim_left_same s h
