-- ===== src/Rule/Lookup.antt =====
-- crates/cfc-core/src/rule.rs: `RuleSet::lookup`, the walk over the rules in priority order.
pub mod Standing
pub mod Sound
pub mod Contract
pub mod Found
pub mod Identity
use colony_firewall_control.Prelude.{
  ℕ, Bool, false, not, ◌&&◌, ◌||◌, Option, none, some, List, [], ◌∷◌, if◌then◌else◌, is_some,
  is_none, is_none_or, or, retain,
}
use colony_firewall_control.Connection.{Connection}
use colony_firewall_control.Process.{Process}
use colony_firewall_control.Rule.{Rule, RuleSet, allow, action_eq, is_expired}
use colony_firewall_control.Rule.Scope.{
  names_program, undecidable_for, matches_process, matches_known_connection,
}

-- `Match`.
pub data Match : Type 0 where
  rule : Rule → Match
  undecidable : Rule → Match
  no_match : Match

-- `Match::rule`.
unfoldable pub answering : Match → Option Rule
answering (rule r) = some r
answering (undecidable _) = none
answering no_match = none

-- The variables of the loop.
pub record Walk : Type 0 where
  pub undecided : Option Rule
  pub maybe_allow : Bool
  pub maybe_closed : Bool
  pub generic_allow : Option Rule

abbrev pub start : Walk
start = record { undecided = none; maybe_allow = false; maybe_closed = false; generic_allow = none }

-- What one round of the loop does: `continue` with its variables, or `winner = Some(rule); break`.
pub data Visit : Type 0 where
  carry_on : Walk → Visit
  break_off : Visit

abbrev pub is_allow : Rule → Bool
is_allow r = action_eq r.action allow

abbrev pub generic : Rule → Bool
generic r = not (names_program r.scope)

-- The arm of a rule that could apply but cannot be decided.
unfoldable pub remember : Walk → Rule → Walk
remember w r = record {
  undecided =
      if is_none_or w.undecided (λ u. is_none u.scope.dst_host && is_some r.scope.dst_host)
      then some r
      else w.undecided;
  maybe_allow = is_allow r || w.maybe_allow;
  maybe_closed = not (is_allow r) || w.maybe_closed;
  generic_allow = w.generic_allow;
}

unfoldable pub visit : Connection → Process → Walk → Rule → Visit
visit c p w r =
    if is_some w.generic_allow && generic r
    then carry_on w
    else if not (matches_known_connection r.scope c)
    then carry_on w
    else if not (undecidable_for r.scope p) && not (matches_process r.scope p)
    then carry_on w
    else if undecidable_for r.scope p || is_some r.scope.dst_host
    then carry_on (remember w r)
    else if is_none w.generic_allow && is_allow r && generic r
    then carry_on (record w { generic_allow = some r })
    else break_off

-- The loop: its variables at the end, and the winner that broke it off.
unfoldable pub walk : Connection → Process → Walk → List Rule → Walk × Option Rule
walk c p w [] = (w, none)
walk c p w (r ∷ rs) = elim (visit c p w r) [
  | carry_on w' ↦ walk c p w' rs
  | break_off ↦ (w, some r)
]

-- What follows the loop.
unfoldable pub settle : Walk → Rule → Match
settle w winner = elim w.undecided [
  | none ↦ rule winner
  | some first ↦
      if (if is_allow winner then not w.maybe_closed else not w.maybe_allow)
      then rule winner
      else undecidable first
]

unfoldable pub conclude : Walk × Option Rule → Match
conclude (w, found) = elim (or found w.generic_allow) [
  | none ↦ elim w.undecided [ none ↦ no_match | some first ↦ undecidable first ]
  | some winner ↦ settle w winner
]

unfoldable pub is_live : ℕ → Rule → Bool
is_live now r = r.enabled && not (is_expired r now)

unfoldable pub lookup : RuleSet → Connection → Process → ℕ → Match
unfolding conclude walk is_live
lookup set c p now = conclude (walk c p start (retain (is_live now) set.rules))
