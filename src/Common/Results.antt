-- ===== src/Common/Results.antt =====
-- What a call of fallible code leaves: a value, an error of type `E`, a panic, or, which is nothing
-- that the code does, a loop of the model that ran out of fuel.
use mathlib.Core.Path.{◌≡◌, refl}
use mathlib.Core.Logic.{◌≢◌}
use mathlib.Core.Bool.{Bool, true, false}

pub data Outcome (E A : Type 0) : Type 0 where
  ok : A → Outcome E A
  err : E → Outcome E A
  panic : Outcome E A
  out_of_fuel : Outcome E A

-- The rest of the code runs on a value; all else is passed on.
abbrev pub ◌>>=◌ : {E A B : Type 0} → Outcome E A → (A → Outcome E B) → Outcome E B
(out_of_fuel) >>= next = out_of_fuel
(panic) >>= next = panic
(err error) >>= next = err error
(ok value) >>= next = next value

infixl 5 ◌>>=◌ ◌>>◌
-- A check that panics when it fails, such as a slice index.
abbrev pub assert : {E : Type 0} → Bool → Outcome E (Unit {0})
assert false = panic
assert true = ok tt

abbrev pub ◌>>◌ : {E B : Type 0} → Outcome E (Unit {0}) → Outcome E B → Outcome E B
check >> rest = check >>= (λ done. rest)

module _ {E A B : Type 0} where
  -- A chain that gives a value went through a first value.
  pub >>=-eq-ok :
      (first : Outcome E A) (next : A → Outcome E B) {result : B}
      → (first >>= next) ≡ ok result
      → (value : A) × (first ≡ ok value) × (next value ≡ ok result)
  >>=-eq-ok out_of_fuel next e = cc
  >>=-eq-ok panic next e = cc
  >>=-eq-ok (err error) next e = cc
  >>=-eq-ok (ok value) next e = (value, refl, e)

  pub >>=-ends_at :
      (first : Outcome E A) (next : A → Outcome E B)
      → first ≢ out_of_fuel
      → ((value : A) → first ≡ ok value → next value ≢ out_of_fuel)
      → (first >>= next) ≢ out_of_fuel
  >>=-ends_at out_of_fuel next ends rest = λ e. ends refl
  >>=-ends_at panic next ends rest = λ e. cc
  >>=-ends_at (err error) next ends rest = λ e. cc
  >>=-ends_at (ok value) next ends rest = rest value refl

  pub >>=-ends :
      (first : Outcome E A) (next : A → Outcome E B)
      → first ≢ out_of_fuel
      → ((value : A) → next value ≢ out_of_fuel)
      → (first >>= next) ≢ out_of_fuel
  >>=-ends first next ends rest = >>=-ends_at first next ends (λ value e. rest value)

pub assert-ends : {E : Type 0} (b : Bool) → assert {E = E} b ≢ out_of_fuel
assert-ends true = λ p. cc
assert-ends false = λ p. cc
