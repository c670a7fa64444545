-- ===== src/Base/Exceptions.antt =====
-- The exceptions of the program, as values.
use mathlib.Core.Bool.{Bool, true, false}
use mathlib.Core.Option.{Option, none, some}
use mathlib.Core.Path.{◌≡◌, refl}

-- The classes of the exceptions; the last is none of the program, but the end of a model's fuel.
pub data Error : Type 0 where
  key_error index_error assertion_error value_error runtime_error out_of_fuel : Error

-- A call returns a value or raises.
pub data Result {ℓ} (A : Type ℓ) : Type ℓ where
  raise : Error → Result A
  ok : A → Result A

-- `xs[i]` and `d[k]`.
abbrev pub or_raise {ℓ} : {A : Type ℓ} → Option A → Error → Result A
or_raise (some value) error = ok value
or_raise none error = raise error

-- `assert`, and a test before a `raise`.
abbrev pub guard : Bool → Error → Result (Unit {0})
guard false error = raise error
guard true error = ok tt

-- An exception ends the statements behind it.
infixl 5 ◌>>=◌
abbrev pub ◌>>=◌ {ℓ ℓ'} : {A : Type ℓ} {R : Type ℓ'} → Result A → (A → Result R) → Result R
raise error >>= next = raise error
ok value >>= next = next value

infixl 5 ◌>>◌
abbrev pub ◌>>◌ {ℓ} : {R : Type ℓ} → Result (Unit {0}) → Result R → Result R
first >> rest = first >>= (λ done. rest)

-- What returned has returned before.
pub bind_inversion {ℓ ℓ'} :
    {A : Type ℓ} {R : Type ℓ'} (first : Result A) (next : A → Result R) (r : R)
    → (first >>= next) ≡ ok r
    → (value : A) × (first ≡ ok value) × (next value ≡ ok r)
bind_inversion (raise error) next r e = absurd cc
bind_inversion (ok value) next r e = (value, refl, e)
