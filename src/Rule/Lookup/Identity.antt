-- ===== src/Rule/Lookup/Identity.antt =====
-- `RuleSet::lookup` on a partly known process, and on what the process turns out to be.
use colony_firewall_control.Prelude.{ℕ, ◌≡◌, ◌∙◌, sym, false, retain, arith, Bool-cases}
use colony_firewall_control.Connection.{Connection}
use colony_firewall_control.Process.{Process}
use colony_firewall_control.Rule.{Rule, RuleSet}
use colony_firewall_control.Rule.Scope.{undecidable_for, matches_known_connection}
use colony_firewall_control.Rule.Scope.Identity.{Learns, undecidable_for-Learns}
use colony_firewall_control.Rule.Lookup.{rule, is_allow, is_live, lookup}
use colony_firewall_control.Rule.Lookup.Standing.{Standing, standing, lookup_at, lookup-lookup_at}
use colony_firewall_control.Rule.Lookup.Sound.{Settles, lookup_at-settled}

pub standing-Settles :
    (c : Connection) (p q : Process)
    → Learns p q
    → (r : Rule) → Settles (standing c p r) (standing c q r)
unfolding standing
standing-Settles c p q l r = ground (
  arith,
  Bool-cases (matches_known_connection r.scope c),
  Bool-cases (undecidable_for r.scope p),
  λ (h : undecidable_for r.scope p ≡ false). undecidable_for-Learns r.scope p q h l,
)

module _ (set : RuleSet) (c : Connection) (p : Process) (now : ℕ) {w : Rule}
    (answer : lookup set c p now ≡ rule w) where
  -- A rule that answers for a flow names the outcome of every way to settle the rules that could
  -- apply to it: whichever of them turn out to apply, a rule answers, and it allows exactly if the
  -- first one does.
  pub lookup-settled :
      (τ : Rule → Standing)
      → ((r : Rule) → Settles (standing c p r) (τ r))
      → (v : Rule) × (lookup_at τ (retain (is_live now) set.rules) ≡ rule v)
        × (is_allow v ≡ is_allow w)
  lookup-settled τ settles =
      lookup_at-settled (standing c p) τ settles (retain (is_live now) set.rules)
        (sym (lookup-lookup_at set c p now) ∙ answer)

  -- A rule that answers for a partly known process decides for good: whatever more is learnt of
  -- the process, a rule still answers for the same flow, and allows exactly if the first one does.
  pub lookup-Learns :
      (q : Process)
      → Learns p q
      → (v : Rule) × (lookup set c q now ≡ rule v) × (is_allow v ≡ is_allow w)
  lookup-Learns q l =
      let (v, found, same) = lookup-settled (standing c q) (standing-Settles c p q l) in
      (v, lookup-lookup_at set c q now ∙ found, same)
