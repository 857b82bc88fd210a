-- ===== src/Prelude/Results.antt =====
-- Calls that may throw: `err` carries the exception.
use mathlib.Core.Path.{◌≡◌, refl}
use mathlib.Core.Bool.{Bool, true, false}

pub data Result {ℓ κ} (E : Type ℓ) (A : Type κ) : Type (ℓ ⊔ κ) where
  err : E → Result E A
  ok : A → Result E A

module _ {ℓ κ} {E : Type ℓ} {A : Type κ} where
  pub ok_injective : {a b : A} → ◌≡◌ {A = Result E A} (ok a) (ok b) → a ≡ b
  ok_injective h = cc

  module _ {ι} {B : Type ι} where
    -- The next call gets the value of the first, unless that threw.
    infixl 5 ◌>>=◌
    abbrev pub ◌>>=◌ : Result E A → (A → Result E B) → Result E B
    err thrown >>= next = err thrown
    ok value >>= next = next value

    -- A chain that returned: each call in it did.
    pub >>=-eq-ok :
        (first : Result E A) (next : A → Result E B) {result : B}
        → first >>= next ≡ ok result
        → (value : A) × (first ≡ ok value) × (next value ≡ ok result)
    >>=-eq-ok (err thrown) next returned = cc
    >>=-eq-ok (ok value) next returned = (value, refl, returned)

-- Throws unless the test holds.
abbrev pub guard {ℓ} : {E : Type ℓ} → Bool → E → Result E (Unit {0})
guard false thrown = err thrown
guard true thrown = ok tt

module _ {ℓ κ} {E : Type ℓ} {B : Type κ} where
  infixl 5 ◌>>◌
  abbrev pub ◌>>◌ : Result E (Unit {0}) → Result E B → Result E B
  err thrown >> next = err thrown
  ok _ >> next = next

  -- A guard that let the call go on.
  pub guard-eq-ok :
      (test : Bool) (thrown : E) (next : Result E B) {result : B}
      → (guard test thrown >> next) ≡ ok result
      → (test ≡ true) × (next ≡ ok result)
  guard-eq-ok false thrown next returned = cc
  guard-eq-ok true thrown next returned = (refl, returned)
