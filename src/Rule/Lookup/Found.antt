-- ===== src/Rule/Lookup/Found.antt =====
-- The rule that `RuleSet::lookup` answers with is one of the set's.
use mathlib.Core.List.{Memᴰ}
use colony_firewall_control.Prelude.{
  ℕ, ◌≡◌, refl, true, Option, none, some, List, [], ◌∷◌, retain, All, Bool-cases, arith, sym, ◌∙◌,
  ◌⊎◌, inl, inr,
}
use colony_firewall_control.Rule.Lookup.Standing.{
  Standing, excluded, possible, applies, standing, next, stops, walk_at, lookup_at,
  lookup-lookup_at,
}
use colony_firewall_control.Connection.{Connection}
use colony_firewall_control.Process.{Process}
use colony_firewall_control.Rule.{Rule, RuleSet}
use colony_firewall_control.Rule.Scope.{matches, matches_connection}
use colony_firewall_control.Rule.Lookup.{
  Walk, rule, start, remember, settle, conclude, is_live, lookup,
}

abbrev pub Holds : (Rule → Type 0) → Option Rule → Type 0
Holds P none = Unit
Holds P (some r) = P r

-- A live rule of the list that matches the flow and the process.
abbrev pub Answers : Connection → Process → ℕ → List Rule → Rule → Type 0
Answers c p now rs r = Memᴰ r rs × (is_live now r ≡ true) × (matches r.scope c p ≡ true)

members :
    (now : ℕ) (rs all : List Rule)
    → ((r : Rule) → Memᴰ r rs → Memᴰ r all)
    → All (λ r. Memᴰ r all × (is_live now r ≡ true)) (retain (is_live now) rs)
unfolding retain
members now [] all within = tt
members now (r ∷ rs) all within = elim (Bool-cases (is_live now r)) [
  | inl e ↦
      rw (retain, e)
        ((within r (Memᴰ.head refl), e), members now rs all (λ s m. within s (Memᴰ.tail m)))
  | inr e ↦ rw (retain, e) (members now rs all (λ s m. within s (Memᴰ.tail m)))
]

stops_applies : (s : Standing) (w : Walk) (r : Rule) → stops s w r ≡ true → s ≡ applies
unfolding stops
stops_applies applies w r h = refl
stops_applies possible w r h = cc
stops_applies excluded w r h = cc

-- A round holds on to what it held, or it takes a rule that applies.
next_held :
    (s : Standing) (w : Walk) (r : Rule)
    → ((next s w r).generic_allow ≡ w.generic_allow)
      ⊎ (((next s w r).generic_allow ≡ some r) × (s ≡ applies))
unfolding next remember
next_held applies w r = ground arith
next_held possible w r = ground arith
next_held excluded w r = inl refl

standing-matches :
    (c : Connection) (p : Process) (r : Rule)
    → standing c p r ≡ applies
    → matches r.scope c p ≡ true
unfolding standing matches matches_connection
standing-matches c p r h = ground (arith, h)

-- The winner is the rule that broke the loop off, or the one held.
conclude_winner :
    (w : Walk) (found : Option Rule) (r : Rule)
    → conclude (w, found) ≡ rule r
    → (found ≡ some r) ⊎ (w.generic_allow ≡ some r)
unfolding conclude settle
conclude_winner w found r e = ground (arith, e)

module _ (σ : Rule → Standing) (Good : Rule → Type 0) where
  abbrev Best : Rule → Type 0
  Best r = Good r × (σ r ≡ applies)

  next-Holds :
      (w : Walk) (r : Rule)
      → Good r
      → Holds Best w.generic_allow
      → Holds Best (next (σ r) w r).generic_allow
  next-Holds w r good held = elim (next_held (σ r) w r) [
    | inl same ↦ rw same held
    | inr (taken, fits) ↦ rw taken (good, fits)
  ]

  walk_at-Holds :
      (w : Walk) (rs : List Rule)
      → All Good rs
      → Holds Best w.generic_allow
      → Holds Best (walk_at σ w rs).0.generic_allow × Holds Best (walk_at σ w rs).1
  unfolding walk_at
  walk_at-Holds w [] goods held = (held, tt)
  walk_at-Holds w (r ∷ rs) (good, goods) held = elim (Bool-cases (stops (σ r) w r)) [
    | inl e ↦ rw (walk_at, e) (held, (good, stops_applies (σ r) w r e))
    | inr e ↦ rw (walk_at, e) (walk_at-Holds (next (σ r) w r) rs goods (next-Holds w r good held))
  ]

  conclude-Holds :
      (end : Walk × Option Rule) (r : Rule)
      → Holds Best end.0.generic_allow
      → Holds Best end.1
      → conclude end ≡ rule r
      → Best r
  conclude-Holds end r held found e = elim (conclude_winner end.0 end.1 r e) [
    | inl won ↦ rw won at found
    | inr won ↦ rw won at held
  ]

pub lookup-Answers :
    (set : RuleSet) (c : Connection) (p : Process) (now : ℕ) (r : Rule)
    → lookup set c p now ≡ rule r
    → Answers c p now set.rules r
unfolding lookup_at
lookup-Answers set c p now r e =
    let Good : Rule → Type 0 = λ s. Memᴰ s set.rules × (is_live now s ≡ true) in
    let σ = standing c p in
    let live = retain (is_live now) set.rules in
    let (held, found) =
      walk_at-Holds σ Good start live (members now set.rules set.rules (λ s m. m)) tt in
    let ((member, lives), fits) =
      conclude-Holds σ Good (walk_at σ start live) r held found
        (sym (lookup-lookup_at set c p now) ∙ e) in
    (member, lives, standing-matches c p r fits)
