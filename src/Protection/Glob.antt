-- ===== src/Protection/Glob.antt =====
-- `filepath.Match` of Go's library, as `matchBranch` of internal/services/protection/service.go uses
-- it: whether a pattern matches a whole name. A malformed pattern matches nothing.
use Prim.Native.Char.{code}
use gitwise.Prelude.{
  ℕ, String, Bool, true, false, not, ◌&&◌, Option, none, some, List, [], ◌∷◌, ◌++◌, leb, ◌==◌,
  if◌then◌else◌, any, is_empty,
}

pub data Token : Type 0 where
  star question : Token
  lit : ℕ → Token
  class : Bool → List (ℕ × ℕ) → Token

-- what the next character of a pattern is read as
pub data Mode : Type 0 where
  plain escaped class_open : Mode
  item low_escaped : Bool → List (ℕ × ℕ) → Mode
  after_low high high_escaped : Bool → List (ℕ × ℕ) → ℕ → Mode

abbrev Step : Type 0
Step = Option (List Token × Mode)

abbrev one : Token → Mode → Step
one t m = some (t ∷ [], m)

abbrev go_on : Mode → Step
go_on m = some ([], m)

-- a range, or the end of a class that has one
abbrev item_step : Bool → List (ℕ × ℕ) → ℕ → Step
item_step neg ranges c =
    if c == b']'
    then (if is_empty ranges then none else one (class neg ranges) plain)
    else if c == b'-'
    then none
    else if c == 92
    then go_on (low_escaped neg ranges)
    else go_on (after_low neg ranges c)

abbrev add_range : List (ℕ × ℕ) → ℕ → ℕ → List (ℕ × ℕ)
add_range ranges lo hi = ranges ++ (lo, hi) ∷ []

pub step : Mode → ℕ → Step
step plain c =
    if c == b'*'
    then one star plain
    else if c == b'?'
    then one question plain
    else if c == b'['
    then go_on class_open
    else if c == 92
    then go_on escaped
    else one (lit c) plain
step escaped c = one (lit c) plain
step class_open c = if c == b'^' then go_on (item true []) else item_step false [] c
step (item neg ranges) c = item_step neg ranges c
step (low_escaped neg ranges) c = go_on (after_low neg ranges c)
step (after_low neg ranges lo) c =
    if c == b'-' then go_on (high neg ranges lo) else item_step neg (add_range ranges lo lo) c
step (high neg ranges lo) c =
    if c == b'-'
    then none
    else if c == b']'
    then none
    else if c == 92
    then go_on (high_escaped neg ranges lo)
    else go_on (item neg (add_range ranges lo c))
step (high_escaped neg ranges lo) c = go_on (item neg (add_range ranges lo c))

abbrev prepend : List Token → Option (List Token) → Option (List Token)
prepend ts none = none
prepend ts (some us) = some (ts ++ us)

pub tokens : Mode → String → Option (List Token)
tokens plain String.[] = some []
tokens m String.[] = none
tokens m (String.◌∷◌ ch s) = elim (step m (code ch)) [
  | none ↦ none
  | some (ts, m') ↦ prepend ts (tokens m' s)
]

abbrev in_ranges : ℕ → List (ℕ × ℕ) → Bool
in_ranges c = any (λ r. leb r.0 c && leb c r.1)

-- a token on a character; `?` stops at a slash, a class may match one
abbrev takes : Token → ℕ → Bool
takes star c = false
takes question c = not (c == b'/')
takes (lit d) c = c == d
takes (class neg ranges) c = if neg then not (in_ranges c ranges) else in_ranges c ranges

-- `matchChunk`: what is left of the name after the tokens of a chunk
pub chunk : List Token → String → Option String
chunk [] s = some s
chunk (t ∷ ts) String.[] = none
chunk (t ∷ ts) (String.◌∷◌ ch s) = elim (takes t (code ch)) [ true ↦ chunk ts s | false ↦ none ]

abbrev ends : String → Bool
ends String.[] = true
ends (String.◌∷◌ ch s) = false

-- the last chunk has to reach the end of the name
abbrev accept : Bool → Option String → Option String
accept last none = none
accept last (some t) = if last && not (ends t) then none else some t

-- The leftmost place where the chunk after a star matches is taken for good. A star stops at a slash.
pub search_chunk : (String → Bool) → Bool → List Token → String → Bool
search_chunk next last ts String.[] = elim (accept last (chunk ts String.[])) [
  | none ↦ false
  | some t ↦ next t
]
search_chunk next last ts (String.◌∷◌ ch s) = elim (accept last (chunk ts (String.◌∷◌ ch s))) [
  | some t ↦ next t
  | none ↦ elim (code ch == b'/') [ true ↦ false | false ↦ search_chunk next last ts s ]
]

-- the chunks that follow stars
pub match_chunks : List (List Token) → String → Bool
match_chunks [] s = ends s
match_chunks (ts ∷ rest) s = search_chunk (match_chunks rest) (is_empty rest) ts s

abbrev add_token : Token → List Token × List (List Token) → List Token × List (List Token)
add_token t (first, rest) = (t ∷ first, rest)

-- the chunk before the first star, and one after each star
pub split : List Token → List Token × List (List Token)
split [] = ([], [])
split (star ∷ ts) = let (first, rest) = split ts in ([], first ∷ rest)
split (question ∷ ts) = add_token question (split ts)
split (lit c ∷ ts) = add_token (lit c) (split ts)
split (class neg ranges ∷ ts) = add_token (class neg ranges) (split ts)

pub match : List Token → String → Bool
unfolding search_chunk match_chunks chunk split
match ts s =
    let (first, rest) = split ts in
    elim (accept (is_empty rest) (chunk first s)) [ none ↦ false | some t ↦ match_chunks rest t ]

unfoldable pub match_branch : String → String → Bool
unfolding step tokens match
match_branch pattern branch = elim (tokens plain pattern) [
  | none ↦ false
  | some ts ↦ match ts branch
]
