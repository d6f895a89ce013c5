-- ===== src/Prelude/Results.antt =====
-- `Result<T, E>` and its chaining by `?`.
use mathlib.Core.Path.{◌≡◌, refl}
use mathlib.Core.Logic.{◌⊎◌, inl, inr}
use mathlib.Core.Bool.{Bool, true, false}

pub data Result {ℓ κ} (E : Type κ) (T : Type ℓ) : Type (ℓ ⊔ κ) where
  err : E → Result E T
  ok : T → Result E T

module _ {κ} {E : Type κ} where
  infixl 5 ◌>>=◌ ◌>>◌
  -- `?`: the rest of the function runs on the value, an error leaves it.
  abbrev pub ◌>>=◌ {ℓ μ} : {T : Type ℓ} {U : Type μ} → Result E T → (T → Result E U) → Result E U
  err failure >>= rest = err failure
  ok value >>= rest = rest value

  abbrev pub ◌>>◌ {μ} : {U : Type μ} → Result E (Unit {0}) → Result E U → Result E U
  err failure >> rest = err failure
  ok _ >> rest = rest

  -- An early `return Err(e)` when the test holds.
  abbrev pub refuse_if : Bool → E → Result E (Unit {0})
  refuse_if true e = err e
  refuse_if false e = ok tt

  pub Result-cases {ℓ} :
      {T : Type ℓ} (m : Result E T) → ((v : T) × (m ≡ ok v)) ⊎ ((e : E) × (m ≡ err e))
  Result-cases (err e) = inr (e, refl)
  Result-cases (ok v) = inl (v, refl)

  -- A chain that succeeds, taken apart.
  pub >>=-eq-ok {ℓ μ} :
      {T : Type ℓ} {U : Type μ} (m : Result E T) (rest : T → Result E U) {u : U}
      → (m >>= rest) ≡ ok u
      → (v : T) × (m ≡ ok v) × (rest v ≡ ok u)
  >>=-eq-ok (ok v) rest h = (v, refl, h)
  >>=-eq-ok (err e) rest h = cc

  pub >>-eq-ok {μ} :
      {U : Type μ} (m : Result E (Unit {0})) (rest : Result E U) {u : U}
      → (m >> rest) ≡ ok u
      → (m ≡ ok tt) × (rest ≡ ok u)
  >>-eq-ok (ok _) rest h = (refl, h)
  >>-eq-ok (err e) rest h = cc
