-- ===== src/Base/Outcome.antt =====
-- What a call comes back with: its value, or the exception it raises.
use mathlib.Core.Path.{◌≡◌, refl}

pub data Result {ℓ} (E : Type 0) (A : Type ℓ) : Type ℓ where
  err : E → Result E A
  ok : A → Result E A

module _ {E : Type 0} where
  infixl 5 ◌>>=◌
  -- The first exception is the outcome of the whole.
  abbrev pub ◌>>=◌ {ℓ κ} : {X : Type ℓ} {Y : Type κ} → Result E X → (X → Result E Y) → Result E Y
  err raised >>= next = err raised
  ok value >>= next = next value

  -- A chain that succeeds went through a value.
  pub >>=-eq-ok {ℓ κ} :
      {X : Type ℓ} {Y : Type κ} (first : Result E X) (next : X → Result E Y) {y : Y}
      → (first >>= next) ≡ ok y
      → (x : X) × (first ≡ ok x) × (next x ≡ ok y)
  >>=-eq-ok (err raised) next h = cc
  >>=-eq-ok (ok value) next h = (value, refl, h)
