-- ===== src/Action.antt =====
-- Service methods. A method reads and writes a state, and returns a value or a Go `error`; what was
-- written before an error stays written, so the state comes back beside the error too.
use gitwise.Prelude.{
  ℕ, ◌+◌, Bool, false, Option, none, some, if◌then◌else◌, ◌≡◌, refl, ap, ◌⊎◌, inl, inr,
}

-- `(T, error)`: the value, or one of the errors of the service
pub data Result (E A : Type 0) : Type 0 where
  ok : A → Result E A
  err : E → Result E A

abbrev pub Action : Type 0 → Type 0 → Type 0 → Type 0
Action S E A = S → Result E A × S

-- Whether the n-th statement that a call sends to the database fails in the driver: a lost
-- connection, a timeout, a cancelled context, a foreign key that is not there.
abbrev pub Faults : Type 0
Faults = ℕ → Bool

abbrev pub no_faults : Faults
no_faults n = false

-- the statements of a callee that runs after `k` statements of the caller
abbrev pub after : ℕ → Faults → Faults
after k fails n = fails (k + n)

module _ {S E A : Type 0} where
  abbrev pub pure : A → Action S E A
  pure a s = (ok a, s)

  abbrev pub raise : E → Action S E A
  raise e s = (err e, s)

  abbrev pub gets : (S → A) → Action S E A
  gets f s = (ok (f s), s)

  -- `if errors.Is(err, pgx.ErrNoRows) { return e }`
  abbrev pub or_raise : Option A → E → Action S E A
  or_raise none e = raise e
  or_raise (some a) e = pure a

module _ {S E : Type 0} where
  abbrev pub modify : (S → S) → Action S E (Unit {0})
  modify f s = (ok tt, f s)

  -- `if c { return e }`
  abbrev pub raise_if : Bool → E → Action S E (Unit {0})
  raise_if c e s = (if c then err e else ok tt, s)

module _ {S E A : Type 0} where
  -- what a transaction has written is there after its commit, and not after an error
  abbrev pub transaction : Action S E A → Action S E A
  transaction m s = let (r, s') = m s in elim r [ ok a ↦ (ok a, s') | err e ↦ (err e, s) ]

infixl 5 ◌>>=◌ ◌>>◌
abbrev pub ◌>>=◌ : {S E A B : Type 0} → Action S E A → (A → Action S E B) → Action S E B
◌>>=◌ m f s = let (r, s') = m s in elim r [ ok a ↦ f a s' | err e ↦ (err e, s') ]

abbrev pub ◌>>◌ : {S E B : Type 0} → Action S E (Unit {0}) → Action S E B → Action S E B
m >> k = m >>= λ _. k

pub Result-cases :
    {E A : Type 0} (r : Result E A) → ((a : A) × (r ≡ ok a)) ⊎ ((e : E) × (r ≡ err e))
Result-cases (ok a) = inl (a, refl)
Result-cases (err e) = inr (e, refl)

-- `x, err := m(s); if err != nil { return err }; …` where `m` returns a value, and where it fails
module _ {S E A B : Type 0} (m : Action S E A) (f : A → Action S E B) (s s' : S) where
  pub bind_ok : (a : A) → m s ≡ (ok a, s') → (m >>= f) s ≡ f a s'
  bind_ok a e =
      ap
        (λ (p : Result E A × S). elim p.0 as (λ x. Result E B × S) [
          | ok b ↦ f b p.1
          | err x ↦ (err x, p.1)
        ])
        e

  pub bind_err : (x : E) → m s ≡ (err x, s') → (m >>= f) s ≡ (err x, s')
  bind_err x e =
      ap
        (λ (p : Result E A × S). elim p.0 as (λ y. Result E B × S) [
          | ok b ↦ f b p.1
          | err y ↦ (err y, p.1)
        ])
        e
