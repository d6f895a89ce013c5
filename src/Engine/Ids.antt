-- ===== src/Engine/Ids.antt =====
-- The rule set seen as a map from identifiers to rules, through sorting, overwriting and removal.
use mathlib.Core.Path.{subst}
use native.Mathlib.Decide.{ℕ_discrete}
use colony_firewall_control.Prelude.{
  ℕ, ◌≡◌, ◌≢◌, refl, sym, Bool, not, Option, none, some, List, [], ◌∷◌, ◌==◌, if◌then◌else◌, retain,
  find, All, arith,
}
use colony_firewall_control.Rule.{Rule}
use colony_firewall_control.Rule.Order.{insert, sort}
use colony_firewall_control.Engine.{same_id, overwrite}

-- No rule has the identifier; no two rules share one.
abbrev pub Fresh : ℕ → List Rule → Type 0
Fresh id = All (λ r. id ≢ r.id)

abbrev pub Distinct : List Rule → Type 0
Distinct [] = Unit
Distinct (r ∷ rs) = Fresh r.id rs × Distinct rs

-- The rule with an identifier.
abbrev pub rule_at : ℕ → List Rule → Option Rule
rule_at id = find (same_id id)

Fresh-insert :
    (id : ℕ) (r : Rule) (rs : List Rule) → id ≢ r.id → Fresh id rs → Fresh id (insert r rs)
unfolding insert
Fresh-insert id r [] n f = (n, tt)
Fresh-insert id r (s ∷ rs) n f = ground (arith, Fresh-insert id r rs n f.1)

Fresh-sort : (id : ℕ) (rs : List Rule) → Fresh id rs → Fresh id (sort rs)
unfolding sort
Fresh-sort id [] f = tt
Fresh-sort id (r ∷ rs) f = Fresh-insert id r (sort rs) f.0 (Fresh-sort id rs f.1)

Distinct-insert : (r : Rule) (rs : List Rule) → Fresh r.id rs → Distinct rs → Distinct (insert r rs)
unfolding insert
Distinct-insert r [] f d = (tt, tt)
Distinct-insert r (s ∷ rs) f d =
    ground (arith, Distinct-insert r rs f.1 d.1, Fresh-insert s.id r rs (λ e. f.0 (sym e)) d.0)

pub Distinct-sort : (rs : List Rule) → Distinct rs → Distinct (sort rs)
unfolding sort
Distinct-sort [] d = tt
Distinct-sort (r ∷ rs) d =
    Distinct-insert r (sort rs) (Fresh-sort r.id rs d.0) (Distinct-sort rs d.1)

rule_at-insert :
    (id : ℕ) (r : Rule) (rs : List Rule)
    → Fresh r.id rs
    → rule_at id (insert r rs) ≡ (if r.id == id then some r else rule_at id rs)
unfolding insert find
rule_at-insert id r [] f = ground arith
rule_at-insert id r (s ∷ rs) f = ground (arith, rule_at-insert id r rs f.1, f.0)

pub rule_at-sort : (id : ℕ) (rs : List Rule) → Distinct rs → rule_at id (sort rs) ≡ rule_at id rs
unfolding sort find
rule_at-sort id [] d = refl
rule_at-sort id (r ∷ rs) d =
    ground (arith, rule_at-insert id r (sort rs) (Fresh-sort r.id rs d.0), rule_at-sort id rs d.1)

Fresh-overwrite :
    (id : ℕ) (r : Rule) (rs : List Rule) → id ≢ r.id → Fresh id rs → Fresh id (overwrite r rs)
unfolding overwrite
Fresh-overwrite id r [] n f = (n, tt)
Fresh-overwrite id r (s ∷ rs) n f = ground (arith, Fresh-overwrite id r rs n f.1)

pub Distinct-overwrite : (r : Rule) (rs : List Rule) → Distinct rs → Distinct (overwrite r rs)
unfolding overwrite
Distinct-overwrite r [] d = (tt, tt)
Distinct-overwrite r (s ∷ rs) d = elim (ℕ_discrete s.id r.id) [
  | yes e ↦ ground (arith, subst (λ id. Fresh id rs) e d.0)
  | no n ↦ ground (arith, Fresh-overwrite s.id r rs n d.0, Distinct-overwrite r rs d.1)
]

pub rule_at-overwrite :
    (id : ℕ) (r : Rule) (rs : List Rule)
    → rule_at id (overwrite r rs) ≡ (if r.id == id then some r else rule_at id rs)
unfolding overwrite find
rule_at-overwrite id r [] = ground arith
rule_at-overwrite id r (s ∷ rs) = ground (arith, rule_at-overwrite id r rs)

pub Fresh-retain :
    (id : ℕ) (p : Rule → Bool) (rs : List Rule) → Fresh id rs → Fresh id (retain p rs)
unfolding retain
Fresh-retain id p [] f = tt
Fresh-retain id p (r ∷ rs) f = ground (arith, Fresh-retain id p rs f.1)

pub Distinct-retain : (p : Rule → Bool) (rs : List Rule) → Distinct rs → Distinct (retain p rs)
unfolding retain
Distinct-retain p [] d = tt
Distinct-retain p (r ∷ rs) d = ground (arith, Fresh-retain r.id p rs d.0, Distinct-retain p rs d.1)

pub rule_at-remove :
    (id gone : ℕ) (rs : List Rule)
    → rule_at id (retain (λ r. not (same_id gone r)) rs)
      ≡ (if gone == id then none else rule_at id rs)
unfolding retain find
rule_at-remove id gone [] = ground arith
rule_at-remove id gone (r ∷ rs) = ground (arith, rule_at-remove id gone rs)
