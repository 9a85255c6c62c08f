-- ===== src/Prelude/Results.antt =====
-- Exceptions as values: a call returns its value or the error that it raised.
use mathlib.Core.Path.{◌≡◌, refl}
use mathlib.Core.Logic.{◌⊎◌, inl, inr}
use mathlib.Core.Bool.{Bool, true, false}

pub data Result {ℓ} (E : Type 0) (A : Type ℓ) : Type ℓ where
  ok : A → Result E A
  err : E → Result E A

module _ {E : Type 0} where
  -- `if condition: raise error`
  abbrev pub raise_if : Bool → E → Result E (Unit {0})
  raise_if false error = ok tt
  raise_if true error = err error

module _ {ℓ κ} {E : Type 0} {A : Type ℓ} {B : Type κ} where
  infixl 5 ◌>>=◌
  -- The rest of a chain runs on a value; an error ends the chain.
  abbrev pub ◌>>=◌ : Result E A → (A → Result E B) → Result E B
  err error >>= rest = err error
  ok value >>= rest = rest value

  -- What a successful chain ran through.
  pub >>=-eq-ok :
      (first : Result E A) (rest : A → Result E B) {result : B}
      → (first >>= rest) ≡ ok result
      → (value : A) × (first ≡ ok value) × (rest value ≡ ok result)
  >>=-eq-ok (err error) rest h = absurd (cc)
  >>=-eq-ok (ok value) rest h = (value, refl, h)

  -- A chain that ends by returning a value.
  pub >>=-ok :
      (first : Result E A) (f : A → B) (value : A)
      → first ≡ ok value
      → (b : B) × ((first >>= λ x. ok (f x)) ≡ ok b)
  >>=-ok first f value h = (f value, rw h refl)

module _ {ℓ} {E : Type 0} {B : Type ℓ} where
  infixl 5 ◌>>◌
  abbrev pub ◌>>◌ : Result E (Unit {0}) → Result E B → Result E B
  check >> rest = check >>= λ checked. rest

  pub >>-eq-ok :
      (check : Result E (Unit {0})) (rest : Result E B) {result : B}
      → (check >> rest) ≡ ok result
      → (check ≡ ok tt) × (rest ≡ ok result)
  >>-eq-ok (err error) rest h = absurd (cc)
  >>-eq-ok (ok tt) rest h = (refl, h)

  -- Where the rest does not raise, the check raised.
  pub >>-eq-err :
      (check : Result E (Unit {0})) (rest : B) {error : E}
      → (check >> ok rest) ≡ err error
      → check ≡ err error
  >>-eq-err (err e) rest h = cc
  >>-eq-err (ok tt) rest h = absurd (cc)

pub raise_if-eq-ok : {E : Type 0} (c : Bool) (e : E) → raise_if c e ≡ ok tt → c ≡ false
raise_if-eq-ok true e h = absurd (cc)
raise_if-eq-ok false e h = refl

pub ok_injective {ℓ} :
    {E : Type 0} {A : Type ℓ} {a b : A} → ◌≡◌ {A = Result E A} (ok a) (ok b) → a ≡ b
ok_injective h = cc

pub Result-cases {ℓ} :
    {E : Type 0} {A : Type ℓ} (r : Result E A) → ((e : E) × (r ≡ err e)) ⊎ ((a : A) × (r ≡ ok a))
Result-cases (err e) = inl (e, refl)
Result-cases (ok a) = inr (a, refl)

pub err_injective {ℓ} :
    {E : Type 0} {A : Type ℓ} {a b : E} → ◌≡◌ {A = Result E A} (err a) (err b) → a ≡ b
err_injective h = cc
