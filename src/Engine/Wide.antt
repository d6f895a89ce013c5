-- ===== src/Engine/Wide.antt =====
-- `process_wide_action` against the packet path: what the kernel is told ahead of any connection.
use colony_firewall_control.Prelude.{
  ℕ, ◌≡◌, ◌≢◌, refl, ap, ◌∙◌, Bool, true, false, not, ◌&&◌, ◌||◌, Option, none, some, List, [], ◌∷◌,
  is_some, is_none_or, retain, arith,
}
use colony_firewall_control.Connection.{Connection, outbound}
use colony_firewall_control.Process.{Process}
use colony_firewall_control.Rule.{Rule, RuleSet, Action, allow, deny, action_eq}
use colony_firewall_control.Rule.Scope.{
  undecidable_for, matches_process, constrains_destination, matches_known_connection, is_inbound,
}
use colony_firewall_control.Rule.Lookup.{
  Walk, Match, rule, undecidable, no_match, start, is_allow, remember, settle, conclude, is_live,
  lookup,
}
use colony_firewall_control.Rule.Lookup.Standing.{
  Standing, excluded, possible, applies, standing, next, stops, walk_at, lookup_at,
  lookup-lookup_at,
}
use colony_firewall_control.Rule.Lookup.Contract.{is_possible}
use colony_firewall_control.Verdict.{Verdict, from_rule, from_policy}
use colony_firewall_control.Engine.{
  Engine, resolved, decide, peek, wide, process_wide_action, is_generic_allow, fallback_verdict,
  denies_process_wide, refuses, is_program_refusal,
}

unconstrained :
    (r : Rule) (c : Connection)
    → c.direction ≡ outbound
    → constrains_destination r.scope ≡ false
    → matches_known_connection r.scope c ≡ true
unfolding constrains_destination matches_known_connection
unconstrained r c o h = ground arith

inbound_excluded :
    (r : Rule) (c : Connection)
    → c.direction ≡ outbound
    → is_inbound r.scope.direction ≡ true
    → matches_known_connection r.scope c ≡ false
unfolding matches_known_connection
inbound_excluded r c o h = ground arith

-- How a rule stands to an outgoing flow, told from what `process_wide_action` asks of it.
module _ (c : Connection) (p : Process) (goes_out : c.direction ≡ outbound) (r : Rule) where
  standing_unmatched :
      undecidable_for r.scope p ≡ false
      → matches_process r.scope p ≡ false
      → standing c p r ≡ excluded
  unfolding standing
  standing_unmatched h k = ground arith

  standing_inbound : is_inbound r.scope.direction ≡ true → standing c p r ≡ excluded
  unfolding standing
  standing_inbound h = ground (arith, inbound_excluded r c goes_out h)

  standing_unconstrained :
      undecidable_for r.scope p ≡ false
      → matches_process r.scope p ≡ true
      → constrains_destination r.scope ≡ false
      → standing c p r ≡ applies
  unfolding standing constrains_destination
  standing_unconstrained h k u = ground (arith, unconstrained r c goes_out u)

  standing_named :
      undecidable_for r.scope p ≡ false
      → is_possible (standing c p r) ≡ true
      → is_some r.scope.dst_host ≡ true
  unfolding standing
  standing_named h k = ground arith

-- What a match makes the packet path do without asking: whether it lets the flow pass.
abbrev pub settled : Match → Option Bool
settled (rule r) = some (is_allow r)
settled (undecidable r) = elim r.scope.dst_host [ none ↦ none | some _ ↦ some false ]
settled no_match = none

-- The walk so far has passed generic Allows alone, and names are all that is open.
abbrev passable : Bool → Walk → Bool
passable saw w =
    not w.maybe_closed
    && is_none_or w.undecided (λ r. is_some r.scope.dst_host)
    && (saw || not (is_some w.generic_allow) && not (is_some w.undecided) && not w.maybe_allow)

-- A round that the rule is excluded from, one that passes a generic Allow, and the last one.
module _ (w : Walk) (r : Rule) where
  round_excluded : {s : Standing} → s ≡ excluded → (next s w r ≡ w) × (stops s w r ≡ false)
  unfolding next stops
  round_excluded e = rw e (refl, refl)

  round_generic :
      (saw : Bool) (s : Standing)
      → is_generic_allow r ≡ true
      → (is_possible s ≡ true → is_some r.scope.dst_host ≡ true)
      → passable saw w ≡ true
      → (passable true (next s w r) ≡ true) × (stops s w r ≡ false)
  unfolding next stops remember is_generic_allow
  round_generic saw excluded g n h = ground arith
  round_generic saw possible g n h = ground arith
  round_generic saw applies g n h = ground arith

  round_last :
      (saw : Bool) {s : Standing}
      → s ≡ applies
      → is_generic_allow r ≡ false
      → (saw && not (is_program_refusal r)) ≡ false
      → passable saw w ≡ true
      → (stops s w r ≡ true) × (settled (conclude (w, some r)) ≡ some (action_eq r.action allow))
  unfolding stops conclude settle is_generic_allow is_program_refusal
  round_last saw e g n h = rw e (ground arith)

module _ (c : Connection) (p : Process) (goes_out : c.direction ≡ outbound) where
  -- The two answers agree on a list of rules, from a walk that has passed generic Allows alone.
  abbrev Agree : Bool → Walk → List Rule → Action → Type 0
  Agree saw w rs a =
      passable saw w ≡ true
      → wide p saw rs ≡ some a
      → settled (conclude (walk_at (standing c p) w rs)) ≡ some (action_eq a allow)

  wide_round :
      (saw : Bool) (w : Walk) (r : Rule) (rs : List Rule) (a : Action)
      → Agree saw w rs a
      → Agree true (next (standing c p r) w r) rs a
      → Agree saw w (r ∷ rs) a
  unfolding wide walk_at
  wide_round saw w r rs a same passed h k = ground (
    arith,
    standing_inbound c p goes_out r,
    standing_unmatched c p goes_out r,
    standing_unconstrained c p goes_out r,
    standing_named c p goes_out r,
    round_excluded w r {s = standing c p r},
    round_generic w r saw (standing c p r),
    round_last w r saw {s = standing c p r},
    same,
    passed,
  )

  wide-walk_at : (saw : Bool) (w : Walk) (rs : List Rule) (a : Action) → Agree saw w rs a
  unfolding wide
  wide-walk_at saw w [] a h k = cc
  wide-walk_at saw w (r ∷ rs) a h k =
      wide_round saw w r rs a (wide-walk_at saw w rs a)
        (wide-walk_at true (next (standing c p r) w r) rs a) h k

-- A match that settles the flow is decided without asking.
decide_of_settled :
    (fallback : Verdict) (m : Match) (b : Bool)
    → settled m ≡ some b
    → (v : Verdict) × (decide fallback m ≡ resolved v) × (action_eq v.action allow ≡ b)
unfolding decide
decide_of_settled f (rule r) b h = (from_rule r.action r.id, refl, ground arith)
decide_of_settled f (undecidable r) b h = (from_policy deny, ground arith, ground arith)
decide_of_settled f no_match b h = cc

-- Where `process_wide_action` answers for a process, the packet path decides every outgoing flow of
-- that process without a prompt, and lets it pass exactly if the answer is Allow.
pub process_wide_action-peek :
    (e : Engine) (p : Process) (now : ℕ) (a : Action) (c : Connection)
    → process_wide_action e p now ≡ some a
    → c.direction ≡ outbound
    → (v : Verdict) × (peek e c p now ≡ resolved v) × (action_eq v.action allow ≡ action_eq a allow)
unfolding process_wide_action peek lookup_at
process_wide_action-peek e p now a c h o =
    let set : RuleSet = record { rules = e.rules } in
    decide_of_settled (fallback_verdict e) (lookup set c p now) (action_eq a allow) (
      ap settled (lookup-lookup_at set c p now)
      ∙ wide-walk_at c p o false start (retain (is_live now) e.rules) a refl h)

refused :
    (o : Option Action)
    → refuses o ≡ true
    → (a : Action) × (o ≡ some a) × (action_eq a allow ≡ false)
refused none h = cc
refused (some a) h = (a, refl, ground arith)

-- A process that the kernel is told to refuse is refused by the packet path too, wherever it
-- connects.
pub denies_process_wide-peek :
    (e : Engine) (p : Process) (now : ℕ) (c : Connection)
    → denies_process_wide e p now ≡ true
    → c.direction ≡ outbound
    → (v : Verdict) × (peek e c p now ≡ resolved v) × (v.action ≢ allow)
unfolding denies_process_wide
denies_process_wide-peek e p now c h o =
    let (a, answer, refusal) = refused (process_wide_action e p now) h in
    let (v, decision, same) = process_wide_action-peek e p now a c answer o in
    (v, decision, λ allowed. ground arith)
