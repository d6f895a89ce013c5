-- ===== src/Prelude/Maps.antt =====
-- A `HashMap` with numbers for keys, as an association list.
use mathlib.Core.Path.{◌≡◌, refl}
use mathlib.Core.Option.{Option, none, some}
use mathlib.Core.List.{List, [], ◌∷◌}
use Prim.Native.Nat.{ℕ, ◌+◌}
use native.Mathlib.Omega.{arith}
use colony_firewall_control.Prelude.Lists.{length}
use colony_firewall_control.Prelude.Tests.{◌==◌, if◌then◌else◌}

abbrev pub Map {ℓ} : Type ℓ → Type ℓ
Map V = List (ℕ × V)

module _ {ℓ} {V : Type ℓ} where
  unfoldable pub get : ℕ → Map V → Option V
  get k [] = none
  get k ((j, v) ∷ m) = if j == k then some v else get k m

  -- `HashMap::insert`.
  unfoldable pub put : ℕ → V → Map V → Map V
  put k v [] = (k, v) ∷ []
  put k v ((j, w) ∷ m) = if j == k then (k, v) ∷ m else (j, w) ∷ put k v m

  -- `HashMap::remove`, its map.
  unfoldable pub remove : ℕ → Map V → Map V
  remove k [] = []
  remove k ((j, w) ∷ m) = let rest = remove k m in if j == k then rest else (j, w) ∷ rest

  pub get-put :
      (k j : ℕ) (v : V) (m : Map V) → get j (put k v m) ≡ (if k == j then some v else get j m)
  unfolding get put
  get-put k j v [] = refl
  get-put k j v ((i, w) ∷ m) = ground (arith, get-put k j v m)

  pub get-remove : (k j : ℕ) (m : Map V) → get j (remove k m) ≡ (if k == j then none else get j m)
  unfolding get remove
  get-remove k j [] = ground arith
  get-remove k j ((i, w) ∷ m) = ground (arith, get-remove k j m)

-- The keys of a map, each of them once.
module _ {ℓ} {V : Type ℓ} where
  abbrev pub Unique : Map V → Type ℓ
  Unique [] = Unit
  Unique ((k, v) ∷ m) = (get k m ≡ none) × Unique m

  pub length-put : (k : ℕ) (v : V) (m : Map V) → get k m ≡ none → length (put k v m) ≡ length m + 1
  unfolding get put
  length-put k v [] h = refl
  length-put k v ((j, w) ∷ m) h = ground (arith, length-put k v m)

  pub Unique-put : (k : ℕ) (v : V) (m : Map V) → Unique m → Unique (put k v m)
  unfolding get put
  Unique-put k v [] u = (refl, tt)
  Unique-put k v ((j, w) ∷ m) u = ground (arith, Unique-put k v m u.1, get-put k j v m)

  pub length-put_old :
      (k : ℕ) (v old : V) (m : Map V) → get k m ≡ some old → length (put k v m) ≡ length m
  unfolding get put
  length-put_old k v old [] h = cc
  length-put_old k v old ((j, w) ∷ m) h = ground (arith, length-put_old k v old m)

  pub remove_absent : (k : ℕ) (m : Map V) → get k m ≡ none → remove k m ≡ m
  unfolding get remove
  remove_absent k [] h = refl
  remove_absent k ((j, w) ∷ m) h = ground (arith, remove_absent k m)

  pub length-remove :
      (k : ℕ) (v : V) (m : Map V) → Unique m → get k m ≡ some v → length (remove k m) + 1 ≡ length m
  unfolding get remove
  length-remove k v [] u h = cc
  length-remove k v ((j, w) ∷ m) u h = ground (arith, length-remove k v m u.1, remove_absent k m)

  pub Unique-remove : (k : ℕ) (m : Map V) → Unique m → Unique (remove k m)
  unfolding remove
  Unique-remove k [] u = tt
  Unique-remove k ((j, w) ∷ m) u = ground (arith, Unique-remove k m u.1, get-remove k j m)

pub ruleset map_laws = (get-put, get-remove)
