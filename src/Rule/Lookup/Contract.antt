-- ===== src/Rule/Lookup/Contract.antt =====
-- The precedence contract of `RuleSet::lookup` as a description without a loop, and the loop
-- against it.
use colony_firewall_control.Prelude.{
  ℕ, ◌≡◌, refl, ◌∙◌, Bool, true, false, ◌&&◌, none, some, List, [], ◌∷◌, retain, find, All,
  if◌then◌else◌, arith,
}
use colony_firewall_control.Connection.{Connection}
use colony_firewall_control.Process.{Process}
use colony_firewall_control.Rule.{Rule, RuleSet}
use colony_firewall_control.Rule.Scope.{names_program}
use colony_firewall_control.Rule.Lookup.{
  Walk, Match, rule, no_match, start, is_allow, generic, settle, conclude, is_live, lookup,
}
use colony_firewall_control.Rule.Lookup.Standing.{
  Standing, excluded, possible, applies, standing, next, stops, walk_at, lookup_at,
  lookup-lookup_at,
}

abbrev pub does_apply : Standing → Bool
does_apply applies = true
does_apply excluded = false
does_apply possible = false

abbrev pub is_possible : Standing → Bool
is_possible possible = true
is_possible excluded = false
is_possible applies = false

abbrev pub program : Rule → Bool
program r = names_program r.scope

-- Of the rules that apply, in priority order, the first wins; but if that is an Allow that names no
-- program, the first that names one wins instead, where there is one.
abbrev pub contract : List Rule → Match
contract [] = no_match
contract (r ∷ rs) =
    if is_allow r && generic r
    then elim (find program rs) [ none ↦ rule r | some q ↦ rule q ]
    else rule r

abbrev pub Decided : (Rule → Standing) → List Rule → Type 0
Decided σ = All (λ r. is_possible (σ r) ≡ false)

abbrev pub applying : (Rule → Standing) → List Rule → List Rule
applying σ = retain (λ r. does_apply (σ r))

module _ (σ : Rule → Standing) where
  walk_at_held :
      (w : Walk) (g : Rule) (rs : List Rule)
      → w.generic_allow ≡ some g
      → Decided σ rs
      → walk_at σ w rs ≡ (w, find program (applying σ rs))
  unfolding walk_at next stops find retain
  walk_at_held w g [] h d = refl
  walk_at_held w g (r ∷ rs) h d = ground (arith, walk_at_held w g rs)

  lookup_at-contract : (rs : List Rule) → Decided σ rs → lookup_at σ rs ≡ contract (applying σ rs)
  unfolding lookup_at walk_at next stops conclude settle retain
  lookup_at-contract [] d = refl
  lookup_at-contract (r ∷ rs) d = ground (
    arith,
    lookup_at-contract rs,
    walk_at_held (record start { generic_allow = some r }) r rs refl d.1,
  )

-- Where every live rule is decided for the flow (the process is known as far as they ask, and none
-- that could apply names a host), `lookup` is the contract over the live rules that apply, in the
-- order of the set.
pub lookup-contract :
    (set : RuleSet) (c : Connection) (p : Process) (now : ℕ)
    → Decided (standing c p) (retain (is_live now) set.rules)
    → lookup set c p now ≡ contract (applying (standing c p) (retain (is_live now) set.rules))
lookup-contract set c p now d =
    lookup-lookup_at set c p now
    ∙ lookup_at-contract (standing c p) (retain (is_live now) set.rules) d
