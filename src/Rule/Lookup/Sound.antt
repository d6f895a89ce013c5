-- ===== src/Rule/Lookup/Sound.antt =====
-- What an answer of `RuleSet::lookup` promises when the rules that could apply are settled.
use colony_firewall_control.Prelude.{
  ◌≡◌, refl, ap, Bool, true, false, not, ◌&&◌, ◌||◌, Option, none, some, List, [], ◌∷◌, is_some,
  is_some_and, is_none_or, or, arith,
}
use colony_firewall_control.Rule.{Rule}
use colony_firewall_control.Rule.Lookup.{
  Walk, Match, rule, undecidable, no_match, start, is_allow, remember, settle, conclude,
}
use colony_firewall_control.Rule.Lookup.Standing.{
  Standing, excluded, possible, applies, next, stops, walk_at, lookup_at,
}

-- A further standing of the same rule: only what was possible may change.
abbrev pub Settles : Standing → Standing → Type 0
Settles excluded s = s ≡ excluded
Settles possible s = Unit
Settles applies s = s ≡ applies

pub maybe_closed-walk_at :
    (σ : Rule → Standing) (w : Walk) (rs : List Rule)
    → w.maybe_closed ≡ true
    → (walk_at σ w rs).0.maybe_closed ≡ true
unfolding walk_at next remember
maybe_closed-walk_at σ w [] h = h
maybe_closed-walk_at σ w (r ∷ rs) h = ground (arith, maybe_closed-walk_at σ (next (σ r) w r) rs)

pub maybe_allow-walk_at :
    (σ : Rule → Standing) (w : Walk) (rs : List Rule)
    → w.maybe_allow ≡ true
    → (walk_at σ w rs).0.maybe_allow ≡ true
unfolding walk_at next remember
maybe_allow-walk_at σ w [] h = h
maybe_allow-walk_at σ w (r ∷ rs) h = ground (arith, maybe_allow-walk_at σ (next (σ r) w r) rs)

-- The end of a walk that can only allow.
pub record Allows (a b : Walk × Option Rule) : Type 0 where
  pub none_closed : b.0.maybe_closed ≡ false
  pub winner_allows : is_none_or b.1 is_allow ≡ true
  pub held_allows : is_none_or b.0.generic_allow is_allow ≡ true
  pub found : is_some (or a.1 a.0.generic_allow) ≡ true → is_some (or b.1 b.0.generic_allow) ≡ true

module _ (σ τ : Rule → Standing) (settles : (r : Rule) → Settles (σ r) (τ r)) where
  pub walk_at-Allows :
      (v w : Walk) (rs : List Rule)
      → (is_some v.generic_allow ≡ true → is_some w.generic_allow ≡ true)
      → is_none_or w.generic_allow is_allow ≡ true
      → w.maybe_closed ≡ false
      → (walk_at σ v rs).0.maybe_closed ≡ false
      → is_none_or (walk_at σ v rs).1 is_allow ≡ true
      → Allows (walk_at σ v rs) (walk_at τ w rs)
  unfolding walk_at next stops remember
  walk_at-Allows v w [] held allows closed h k = ground arith
  walk_at-Allows v w (r ∷ rs) held allows closed h k = ground (
    arith,
    settles r,
    maybe_closed-walk_at σ (remember v r) rs,
    walk_at-Allows (next (σ r) v r) (next (τ r) w r) rs,
  )

-- The end of a walk that can only refuse.
pub record Refuses (b : Walk × Option Rule) : Type 0 where
  pub none_allows : b.0.maybe_allow ≡ false
  pub winner_refuses : is_some_and b.1 (λ r. not (is_allow r)) ≡ true

module _ (σ τ : Rule → Standing) (settles : (r : Rule) → Settles (σ r) (τ r)) where
  pub walk_at-Refuses :
      (v w : Walk) (rs : List Rule)
      → is_some v.generic_allow ≡ is_some w.generic_allow
      → w.maybe_allow ≡ false
      → (walk_at σ v rs).0.maybe_allow ≡ false
      → is_some_and (walk_at σ v rs).1 (λ r. not (is_allow r)) ≡ true
      → Refuses (walk_at τ w rs)
  unfolding walk_at next stops remember
  walk_at-Refuses v w [] held allows h k = ground arith
  walk_at-Refuses v w (r ∷ rs) held allows h k = ground (
    arith,
    settles r,
    maybe_allow-walk_at σ (remember v r) rs,
    walk_at-Refuses (next (σ r) v r) (next (τ r) w r) rs,
  )

-- The held rule is always an Allow.
pub held-walk_at :
    (σ : Rule → Standing) (w : Walk) (rs : List Rule)
    → is_none_or w.generic_allow is_allow ≡ true
    → is_none_or (walk_at σ w rs).0.generic_allow is_allow ≡ true
unfolding walk_at next remember
held-walk_at σ w [] h = h
held-walk_at σ w (r ∷ rs) h = ground (arith, held-walk_at σ (next (σ r) w r) rs)

-- What a match says of the flow: let it pass, refuse it, or nothing.
abbrev pub outcome : Match → Option Bool
outcome (rule r) = some (is_allow r)
outcome (undecidable r) = none
outcome no_match = none

pub rule_of_outcome :
    (m : Match) (b : Bool) → outcome m ≡ some b → (r : Rule) × (m ≡ rule r) × (is_allow r ≡ b)
rule_of_outcome (rule r) b h = (r, refl, ground arith)
rule_of_outcome (undecidable r) b h = cc
rule_of_outcome no_match b h = cc

conclude-Allows :
    (a b : Walk × Option Rule)
    → Allows a b
    → is_some (or a.1 a.0.generic_allow) ≡ true
    → outcome (conclude b) ≡ some true
unfolding conclude settle
conclude-Allows a b h k = ground arith

conclude-Refuses : (b : Walk × Option Rule) → Refuses b → outcome (conclude b) ≡ some false
unfolding conclude settle
conclude-Refuses b h = ground arith

-- Nothing is flagged before something is remembered.
abbrev pub accounted : Walk → Bool
accounted w = is_some w.undecided || not w.maybe_allow && not w.maybe_closed

pub accounted-walk_at :
    (σ : Rule → Standing) (w : Walk) (rs : List Rule)
    → accounted w ≡ true
    → accounted (walk_at σ w rs).0 ≡ true
unfolding walk_at next remember
accounted-walk_at σ w [] h = h
accounted-walk_at σ w (r ∷ rs) h = ground (arith, accounted-walk_at σ (next (σ r) w r) rs)

-- What a walk that ends in an answer has found.
conclude-true :
    (a : Walk × Option Rule)
    → is_none_or a.0.generic_allow is_allow ≡ true
    → accounted a.0 ≡ true
    → outcome (conclude a) ≡ some true
    → (a.0.maybe_closed ≡ false)
      × (is_none_or a.1 is_allow ≡ true)
      × (is_some (or a.1 a.0.generic_allow) ≡ true)
unfolding conclude settle
conclude-true a g u h = ground arith

conclude-false :
    (a : Walk × Option Rule)
    → is_none_or a.0.generic_allow is_allow ≡ true
    → accounted a.0 ≡ true
    → outcome (conclude a) ≡ some false
    → (a.0.maybe_allow ≡ false) × (is_some_and a.1 (λ r. not (is_allow r)) ≡ true)
unfolding conclude settle
conclude-false a g u h = ground arith

module _ (σ τ : Rule → Standing) (settles : (r : Rule) → Settles (σ r) (τ r)) (rs : List Rule) where
  -- The outcome of a walk that answers stands however the possible rules are settled.
  outcome-settled :
      (b : Bool) → outcome (lookup_at σ rs) ≡ some b → outcome (lookup_at τ rs) ≡ some b
  unfolding lookup_at
  outcome-settled true h =
      let (flags, win, found) =
        conclude-true (walk_at σ start rs) (held-walk_at σ start rs refl)
          (accounted-walk_at σ start rs refl) h in
      conclude-Allows (walk_at σ start rs) (walk_at τ start rs)
        (walk_at-Allows σ τ settles start start rs (λ e. e) refl refl flags win) found
  outcome-settled false h =
      let (flags, win) =
        conclude-false (walk_at σ start rs) (held-walk_at σ start rs refl)
          (accounted-walk_at σ start rs refl) h in
      conclude-Refuses (walk_at τ start rs)
        (walk_at-Refuses σ τ settles start start rs refl refl flags win)

  pub lookup_at-settled :
      {w : Rule}
      → lookup_at σ rs ≡ rule w
      → (v : Rule) × (lookup_at τ rs ≡ rule v) × (is_allow v ≡ is_allow w)
  lookup_at-settled {w} h =
      rule_of_outcome (lookup_at τ rs) (is_allow w) (outcome-settled (is_allow w) (ap outcome h))
