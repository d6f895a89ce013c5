-- ===== src/Engine.antt =====
-- crates/cfc-daemon/src/decision.rs: the decision engine. A method takes the state and returns the
-- new one; the wall clock is an argument. The state's locks only keep each of these steps whole.
pub mod Wide
pub mod Ids
pub mod Invariant
pub mod Hits
use Prim.Native.Nat.{min}
use mathlib.Core.Option.{get_or}
use mathlib.Core.List.{reverse}
use colony_firewall_control.Prelude.{
  ℕ, ◌+◌, ◌-◌, ◌%◌, ◌^◌, Bool, true, false, not, ◌&&◌, ◌||◌, Option, none, some, List, [], ◌∷◌,
  ◌++◌, map, ◌==◌, if◌then◌else◌, is_some, is_none, retain, find, any, length, Text, text_eq,
}
use colony_firewall_control.Prelude.Maps.{Map, get, put}
use colony_firewall_control.Connection.{Connection}
use colony_firewall_control.Process.{Process}
use colony_firewall_control.Rule.{Rule, RuleSet, Action, allow, deny, action_eq, is_expired}
use colony_firewall_control.Rule.Scope.{
  names_program, is_inbound, undecidable_for, matches_process, constrains_destination,
}
use colony_firewall_control.Rule.Order.{sort_deterministic}
use colony_firewall_control.Rule.Lookup.{
  Match, rule, undecidable, no_match, is_allow, is_live, lookup,
}
use colony_firewall_control.Verdict.{Verdict, VerdictSource, from_rule, from_policy}
use colony_firewall_control.Config.{DefaultPolicy}

-- `observed`: a callback is registered; `notified`: how often it was called.
pub record Engine : Type 0 where
  pub rules : List Rule
  pub default_policy : DefaultPolicy
  pub hits : Map ℕ
  pub observed : Bool
  pub notified : ℕ

pub data Decision : Type 0 where
  resolved : Verdict → Decision
  needs_prompt : Verdict → Option ℕ → Decision

-- `u64` arithmetic.
abbrev pub u64 : ℕ → ℕ
u64 n = n % 2 ^ 64

abbrev pub saturating_add : ℕ → ℕ → ℕ
saturating_add a b = min (a + b) (2 ^ 64 - 1)

unfoldable pub sorted : List Rule → List Rule
unfolding sort_deterministic
sorted rs = (sort_deterministic (record { rules = rs })).rules

unfoldable pub new : List Rule → DefaultPolicy → Engine
unfolding sorted
new rs policy = record {
  rules = sorted rs;
  default_policy = policy;
  hits = [];
  observed = false;
  notified = 0;
}

unfoldable pub set_on_change : Engine → Engine
set_on_change e = record e { observed = true }

unfoldable pub notify_changed : Engine → Engine
notify_changed e = if e.observed then record e { notified = e.notified + 1 } else e

unfoldable pub notify_rules_expired : ℕ → Engine → Engine
unfolding notify_changed
notify_rules_expired now e =
    notify_changed (record e { rules = retain (λ r. not (is_expired r now)) e.rules })

unfoldable pub fallback_verdict : Engine → Verdict
fallback_verdict e = from_policy e.default_policy.no_ui_action

unfoldable pub inbound_default : Engine → Action
inbound_default e = e.default_policy.inbound_action

unfoldable pub rule_count : Engine → ℕ
rule_count e = length e.rules

-- The `match` of `peek`.
unfoldable pub decide : Verdict → Match → Decision
decide fallback (rule r) = resolved (from_rule r.action r.id)
decide fallback (undecidable r) =
    if is_some r.scope.dst_host
    then resolved (from_policy deny)
    else needs_prompt fallback (some r.id)
decide fallback no_match = needs_prompt fallback none

unfoldable pub peek : Engine → Connection → Process → ℕ → Decision
unfolding decide fallback_verdict
peek e c p now = decide (fallback_verdict e) (lookup (record { rules = e.rules }) c p now)

unfoldable pub count_hit : ℕ → Engine → Engine
count_hit id e = record e { hits = put id (u64 (get_or (get id e.hits) 0 + 1)) e.hits }

-- Only a decision that a rule made counts.
unfoldable pub credit : Decision → Engine → Engine
unfolding count_hit
credit (resolved v) e = elim v.source [ VerdictSource.rule id ↦ count_hit id e | _ ↦ e ]
credit (needs_prompt _ _) e = e

unfoldable pub evaluate : Engine → Connection → Process → ℕ → Engine × Decision
unfolding credit
evaluate e c p now = let d = peek e c p now in (credit d e, d)

unfoldable pub is_generic_allow : Rule → Bool
is_generic_allow r = action_eq r.action allow && not (names_program r.scope)

unfoldable pub is_program_refusal : Rule → Bool
is_program_refusal r = not (action_eq r.action allow) && names_program r.scope

-- The loop of `process_wide_action`; `saw` is `saw_generic_allow`.
unfoldable pub wide : Process → Bool → List Rule → Option Action
wide p saw [] = none
wide p saw (r ∷ rs) =
    let rest = wide p saw rs in
    let passed = wide p true rs in
    if is_inbound r.scope.direction
    then rest
    else if undecidable_for r.scope p
    then none
    else if not (matches_process r.scope p)
    then rest
    else if is_generic_allow r
    then passed
    else if saw && not (is_program_refusal r)
    then none
    else if not (constrains_destination r.scope)
    then some r.action
    else none

unfoldable pub process_wide_action : Engine → Process → ℕ → Option Action
unfolding wide
process_wide_action e p now = wide p false (retain (is_live now) e.rules)

abbrev refuses : Option Action → Bool
refuses none = false
refuses (some a) = not (action_eq a allow)

unfoldable pub denies_process_wide : Engine → Process → ℕ → Bool
unfolding process_wide_action
denies_process_wide e p now = refuses (process_wide_action e p now)

-- The paths that the live rules name, one for each rule: the set that the source collects, with
-- repetitions.
unfoldable pub paths : List Rule → List Text
paths [] = []
paths (r ∷ rs) = elim r.scope.exe_path [ none ↦ paths rs | some path ↦ path ∷ paths rs ]

unfoldable pub compilable_exe_paths : Engine → ℕ → Option (List Text)
unfolding paths
compilable_exe_paths e now =
    let live = retain (is_live now) e.rules in
    let scoped = paths (retain (λ r. is_some r.scope.uid) live) in
    if any (λ r. is_some r.scope.uid && is_none r.scope.exe_path) live
    then none
    else some (retain (λ path. not (any (text_eq path) scoped)) (paths live))

abbrev pub same_id : ℕ → Rule → Bool
same_id id r = r.id == id

unfoldable pub preserve_server_owned : Engine → Rule → Rule
preserve_server_owned e r = elim (find (same_id r.id) e.rules) [
  | none ↦ r
  | some existing ↦ record r { hit_count = existing.hit_count; created_at = existing.created_at }
]

-- The rule that `replace_rules` has for an identifier: of several, the hash map kept the last.
unfoldable pub restore_server_owned : Engine → Rule → Rule
restore_server_owned e r = elim (find (same_id r.id) (reverse e.rules)) [
  | none ↦ r
  | some old ↦ record r { hit_count = old.hit_count; created_at = old.created_at }
]

-- `replace_rules`: the batch is sorted first, then takes the counts and instants of the rules that
-- it replaces; hits of rules that are gone are dropped.
unfoldable pub replace_rules : List Rule → Engine → Engine
unfolding sorted notify_changed restore_server_owned
replace_rules rs e =
    let replacement = map (restore_server_owned e) (sorted rs) in
    notify_changed (record e {
      rules = replacement;
      hits = retain (λ hit. any (same_id hit.0) replacement) e.hits;
    })

-- `iter_mut().find(…)`: the first rule with the identifier is overwritten, or the rule is pushed.
unfoldable pub overwrite : Rule → List Rule → List Rule
overwrite r [] = r ∷ []
overwrite r (s ∷ rs) = if s.id == r.id then r ∷ rs else s ∷ overwrite r rs

unfoldable pub upsert_rule : Rule → Engine → Engine
unfolding sorted overwrite notify_changed
upsert_rule r e = notify_changed (record e { rules = sorted (overwrite r e.rules) })

unfoldable pub remove_rule : ℕ → Engine → Engine
unfolding notify_changed
remove_rule id e = notify_changed (record e { rules = retain (λ r. not (same_id id r)) e.rules })

-- A rule with its pending hits added.
unfoldable pub with_hits : Map ℕ → Rule → Rule
with_hits hits r = elim (get r.id hits) [
  | none ↦ r
  | some extra ↦ record r { hit_count = saturating_add r.hit_count extra }
]

unfoldable pub snapshot : Engine → RuleSet
unfolding with_hits
snapshot e = record { rules = map (with_hits e.hits) e.rules }

unfoldable pub drain_hits : Engine → Engine × Map ℕ
unfolding with_hits
drain_hits e = (record e { rules = map (with_hits e.hits) e.rules; hits = [] }, e.hits)
