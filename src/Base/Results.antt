-- ===== src/Base/Results.antt =====
-- Go's pair of a value and an error, as one value: `ok` or the error, over any type of errors.
use mathlib.Core.Path.{◌≡◌, refl}
use mathlib.Core.Bool.{Bool, true, false}
use mathlib.Core.Logic.{◌⊎◌, inl, inr}
use native.Mathlib.Omega.{arith}

pub data Result (E A : Type 0) : Type 0 where
  ok : A → Result E A
  err : E → Result E A

-- The first error ends the chain.
infixl 5 ◌>>=◌ ◌>>◌
abbrev pub ◌>>=◌ : {E X Y : Type 0} → Result E X → (X → Result E Y) → Result E Y
err failure >>= next = err failure
ok x >>= next = next x

abbrev pub ◌>>◌ : {E Y : Type 0} → Result E (Unit {0}) → Result E Y → Result E Y
first >> second = first >>= λ _. second

-- An early `return` of an error when the test holds.
abbrev pub fail_if : {E : Type 0} → Bool → E → Result E (Unit {0})
fail_if true failure = err failure
fail_if false failure = ok tt

module _ {E X Y : Type 0} where
  pub >>=-eq-ok :
      (first : Result E X) (next : X → Result E Y) {y : Y}
      → (first >>= next) ≡ ok y
      → (x : X) × (first ≡ ok x) × (next x ≡ ok y)
  >>=-eq-ok (err failure) next h = cc
  >>=-eq-ok (ok x) next h = (x, refl, h)

  pub >>=-eq-err :
      (first : Result E X) (next : X → Result E Y) {failure : E}
      → (first >>= next) ≡ err failure
      → (first ≡ err failure) ⊎ ((x : X) × (first ≡ ok x) × (next x ≡ err failure))
  >>=-eq-err (err early) next h = inl (ground arith)
  >>=-eq-err (ok x) next h = inr (x, refl, h)

pub ok-injective : {E X : Type 0} {x y : X} → ◌≡◌ {A = Result E X} (ok x) (ok y) → x ≡ y
ok-injective h = cc

pub Result-cases :
    {E X : Type 0} (m : Result E X) → ((failure : E) × (m ≡ err failure)) ⊎ ((x : X) × (m ≡ ok x))
Result-cases (err failure) = inl (failure, refl)
Result-cases (ok x) = inr (x, refl)
