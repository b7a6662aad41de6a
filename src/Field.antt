-- ===== src/Field.antt =====
-- The optional fields of an update request: a nil pointer leaves the column as it is.
use gitwise.Prelude.{String, Bool, true, false, Option, none, some}
use gitwise.Text.{trim_space}

module _ {ℓ} {A : Type ℓ} where
  -- the value that a SET clause writes, if there is one
  abbrev pub or_old : Option A → A → A
  or_old none old = old
  or_old (some new) old = new

  abbrev pub is_given : Option A → Bool
  is_given none = false
  is_given (some a) = true

  -- a field that is there fails its check
  abbrev pub refuses : (A → Bool) → Option A → Bool
  refuses bad none = false
  refuses bad (some a) = bad a

abbrev pub trimmed : Option String → Option String
trimmed none = none
trimmed (some s) = some (trim_space s)
