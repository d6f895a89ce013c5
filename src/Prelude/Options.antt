-- ===== src/Prelude/Options.antt =====
-- The chaining of options by `?`.
use mathlib.Core.Option.{Option, none, some}

infixl 5 ◌>>=◌
-- `?` on an `Option`: the rest of the function runs on the value, `None` leaves it.
abbrev pub ◌>>=◌ {ℓ κ} : {A : Type ℓ} {B : Type κ} → Option A → (A → Option B) → Option B
none >>= rest = none
some value >>= rest = rest value
