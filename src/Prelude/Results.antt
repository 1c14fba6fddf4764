-- ===== src/Prelude/Results.antt =====
-- Calls that return a value or an error, and their chains.
use mathlib.Core.Path.{◌≡◌, refl}
use mathlib.Core.Logic.{◌⊎◌, inl, inr}

-- One outcome of a call that returns a value or an error.
pub data Result {ℓ κ} (E : Type ℓ) (A : Type κ) : Type (ℓ ⊔ κ) where
  ok : A → Result E A
  err : E → Result E A

module _ {ℓ κ} {E : Type ℓ} {Value : Type κ} where
  pub Result-cases :
      (call : Result E Value) → ((value : Value) × (call ≡ ok value)) ⊎ ((e : E) × (call ≡ err e))
  Result-cases (err e) = inr (e, refl)
  Result-cases (ok value) = inl (value, refl)

  pub ok-injective : {a b : Value} → ◌≡◌ {A = Result E Value} (ok a) (ok b) → a ≡ b
  ok-injective h = cc h

  module _ {μ} {Last : Type μ} where
    infixl 5 ◌>>=◌
    abbrev pub ◌>>=◌ : Result E Value → (Value → Result E Last) → Result E Last
    err e >>= next = err e
    ok value >>= next = next value

    -- A chain that returned: both of its parts did.
    pub >>=-eq-ok :
        (call : Result E Value) (next : Value → Result E Last) {last : Last}
        → (call >>= next) ≡ ok last
        → (value : Value) × (call ≡ ok value) × (next value ≡ ok last)
    >>=-eq-ok (err e) next h = cc h
    >>=-eq-ok (ok value) next h = (value, refl, h)
