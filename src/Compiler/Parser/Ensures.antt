-- ===== src/Compiler/Parser/Ensures.antt =====
-- What a call of the parser returns within its fuel.
use root_wire.Base.{◌≡◌, refl, Option, none, some, Result, ok, err, ◌>>=◌, ◌≢◌}
use mathlib.Core.Path.{subst}
use root_wire.Compiler.Syntax.{Error, out_of_fuel}

-- A value with a property, or an error of the program.
pub data Ensures {ℓ κ} {A : Type ℓ} (P : A → Type κ) : Result Error A → Type (ℓ ⊔ κ) where
  returns : {a : A} → P a → Ensures P (ok a)
  raises : {e : Error} → e ≢ out_of_fuel → Ensures P (err e)

module _ {ℓ κ} {A : Type ℓ} {P : A → Type κ} where
  pub Ensures-ok : {r : Result Error A} {a : A} → Ensures P r → r ≡ ok a → P a
  Ensures-ok (returns h) e = subst P (cc) h
  Ensures-ok (raises h) e = cc

  pub Ensures-ne-out_of_fuel : {r : Result Error A} → Ensures P r → r ≢ err out_of_fuel
  Ensures-ne-out_of_fuel (returns h) = cc
  Ensures-ne-out_of_fuel (raises h) = λ e. h (cc e)

  pub Ensures-bind {ℓ' κ'} :
      {B : Type ℓ'} {Q : B → Type κ'} {r : Result Error A} {f : A → Result Error B}
      → Ensures P r
      → ((a : A) → P a → Ensures Q (f a))
      → Ensures Q (r >>= f)
  Ensures-bind (returns {a} h) k = k a h
  Ensures-bind (raises h) k = raises h

  pub Ensures-option {ℓ'} :
      {B : Type ℓ'} (o : Option B) {f : B → Result Error A} {d : Result Error A}
      → (o ≡ none → Ensures P d)
      → ((b : B) → o ≡ some b → Ensures P (f b))
      → Ensures P (elim o [ none ↦ d | some b ↦ f b ])
  Ensures-option none h k = h refl
  Ensures-option (some b) h k = k b refl

  pub Ensures-mono {κ'} :
      {Q : A → Type κ'} {r : Result Error A} → ((a : A) → P a → Q a) → Ensures P r → Ensures Q r
  Ensures-mono k (returns {a} h) = returns (k a h)
  Ensures-mono k (raises h) = raises h
