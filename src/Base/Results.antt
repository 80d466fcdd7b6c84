-- ===== src/Base/Results.antt =====
-- A Go result `(value, error)`: the value, or the error of the model's own type.
use mathlib.Core.Path.{◌≡◌, refl}
use mathlib.Core.Bool.{Bool, true, false, not}

pub data Result {ℓ} (E : Type 0) (A : Type ℓ) : Type ℓ where
  ok : A → Result E A
  err : E → Result E A

-- `if refused { return err }`
abbrev pub refuse : {E : Type 0} → Bool → E → Result E (Unit {0})
refuse refused e = elim refused [ true ↦ err e | false ↦ ok tt ]

-- `if err != nil { return err }`
infixl 5 ◌>>=◌ ◌>>◌
abbrev pub ◌>>=◌ {ℓ κ} :
    {A : Type ℓ} {B : Type κ} {E : Type 0} → Result E A → (A → Result E B) → Result E B
◌>>=◌ (err e) next = err e
◌>>=◌ (ok value) next = next value

abbrev pub ◌>>◌ {ℓ} : {B : Type ℓ} {E : Type 0} → Result E (Unit {0}) → Result E B → Result E B
first >> second = first >>= λ _. second

-- What the success of a sequence says of its parts.
module _ {κ} {E : Type 0} {B : Type κ} {x : B} where
  pub >>=-eq-ok {ℓ} :
      {A : Type ℓ} (first : Result E A) (next : A → Result E B)
      → (first >>= next) ≡ ok x
      → (value : A) × (first ≡ ok value) × (next value ≡ ok x)
  >>=-eq-ok (err e) next h = cc
  >>=-eq-ok (ok value) next h = (value, refl, h)

  pub refuse-eq-ok :
      (refused : Bool) (e : E) (rest : Result E B)
      → (refuse refused e >> rest) ≡ ok x
      → (refused ≡ false) × (rest ≡ ok x)
  refuse-eq-ok false e rest h = (refl, h)
  refuse-eq-ok true e rest h = cc

  pub refuse-not-eq-ok :
      (required : Bool) (e : E) (rest : Result E B)
      → (refuse (not required) e >> rest) ≡ ok x
      → (required ≡ true) × (rest ≡ ok x)
  refuse-not-eq-ok false e rest h = cc
  refuse-not-eq-ok true e rest h = (refl, h)
