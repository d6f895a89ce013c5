-- ===== src/Service/Accepted.antt =====
-- crates/cfc-daemon/src/ipc/mod.rs: a rule that a call writes is one that a start loads as it is.
use mathlib.Core.Path.{subst}
use colony_firewall_control.Prelude.{
  ℕ, ◌≡◌, ◌≢◌, sym, ◌∙◌, ap, none, some, Text, ok, ◌>>◌, refuse_if, >>=-eq-ok, >>-eq-ok,
  Result-cases, Option-cases, Bool-cases, inl, inr, arith, Result,
}
use colony_firewall_control.Connection.{other}
use colony_firewall_control.Rule.{Rule, RuleScope}
use colony_firewall_control.Rule.Scope.{specificity}
use colony_firewall_control.Rule.Guards.{
  reject_exe, reject_unmatchable_exe, reject_unmatchable_parent, reject_inbound_destination_scope,
  reject_unattributable_inbound_scope,
}
use colony_firewall_control.Engine.{Engine, preserve_server_owned, snapshot}
use colony_firewall_control.Wire
use colony_firewall_control.Convert.{
  checks, reject_unscoped, rule_from_pb, reject_unpersistable_duration, scope_check,
}
use colony_firewall_control.Convert.Stable.{rule_from_pb-checks}
use colony_firewall_control.Storage.{load_rule}
use colony_firewall_control.Storage.Loaded.{load_rule_accepted}
use colony_firewall_control.Service.{
  Outside, Peer, State, Answer, checked_rule, resolve_exe, converted, confirm_generic_allow,
  keeps_stored_exe, becomes_always, timed_to_always, chosen_scope, settled_rule,
}

-- What `resolve_policy` gives is a path that a rule may name.
abbrev pub ResolvesWell : (Text → Result Text Text) → Type 0
ResolvesWell resolve_policy =
    (path target : Text) → resolve_policy path ≡ ok target → reject_exe (some target) ≡ ok tt

-- A scope that a start loads as it is.
abbrev pub Loads : RuleScope → Type 0
Loads s = (checks s ≡ ok tt) × (s.dst_host ≡ none) × ((k : ℕ) → s.protocol ≢ some (other k))

module _ (s : RuleScope) (path target : Text) (named : s.exe_path ≡ some path) where
  abbrev moved : RuleScope
  moved = record s { exe_path = some target }

  unscoped_moved : reject_unscoped moved ≡ ok tt
  unfolding reject_unscoped specificity
  unscoped_moved = ground arith

  unattributable_moved :
      scope_check (reject_unattributable_inbound_scope s) ≡ ok tt
      → scope_check (reject_unattributable_inbound_scope moved) ≡ ok tt
  unfolding reject_unattributable_inbound_scope
  unattributable_moved h = ground arith

  checks-exe : checks s ≡ ok tt → reject_exe (some target) ≡ ok tt → checks moved ≡ ok tt
  unfolding checks reject_unmatchable_exe reject_unmatchable_parent reject_inbound_destination_scope
  checks-exe h k =
      let (_, h1) = >>-eq-ok (reject_unscoped s) _ h in
      let (_, h2) = >>-eq-ok (scope_check (reject_unmatchable_exe s)) _ h1 in
      let (parent, h3) = >>-eq-ok (scope_check (reject_unmatchable_parent s)) _ h2 in
      let (inbound, last) = >>-eq-ok (scope_check (reject_inbound_destination_scope s)) _ h3 in
      rw (unscoped_moved, k, parent, inbound) (unattributable_moved last)

same_scope : (a b : RuleScope) → ◌≡◌ {A = Answer RuleScope} (ok a) (ok b) → a ≡ b
same_scope a b h = cc

pub resolve_exe-Loads :
    (o : Outside) (s s' : RuleScope)
    → ResolvesWell o.resolve_policy
    → Loads s
    → resolve_exe o.resolve_policy s ≡ ok s'
    → Loads s'
unfolding resolve_exe
resolve_exe-Loads o s s' well l h = elim (Option-cases s.exe_path) [
  | inl unnamed ↦ subst Loads (same_scope s s' (ground arith)) l
  | inr (path, named) ↦ elim (Result-cases (o.resolve_policy path)) [
    | inl (target, found) ↦
        subst Loads (same_scope (record s { exe_path = some target }) s' (ground arith))
          (checks-exe s path target named l.0 (well path target found), l.1, l.2)
    | inr (reason, refused) ↦ absurd (ground arith)
  ]
]

preserve_server_owned-scope : (e : Engine) (r : Rule) → (preserve_server_owned e r).scope ≡ r.scope
unfolding preserve_server_owned
preserve_server_owned-scope e r = ground arith

chosen_scope-Loads :
    (o : Outside) (sent : Rule) (s : State) (scope : RuleScope)
    → ResolvesWell o.resolve_policy
    → Loads sent.scope
    → chosen_scope o sent s ≡ ok scope
    → Loads scope
unfolding chosen_scope
chosen_scope-Loads o sent s scope well l h =
    elim (Bool-cases (keeps_stored_exe (snapshot s.engine).rules sent)) [
      | inl kept ↦ subst Loads (same_scope sent.scope scope (ground arith)) l
      | inr fresh ↦ resolve_exe-Loads o sent.scope scope well l (ground arith)
    ]

pub same_rule : (a b : Rule) → ◌≡◌ {A = Answer Rule} (ok a) (ok b) → a ≡ b
same_rule a b h = cc

abbrev with_scope : Rule → RuleScope → Rule
with_scope r scope = record r { scope = scope }

-- The end of the checks.
written_rule :
    (o : Outside) (sent : Rule) (scope : RuleScope) (s : State) (r : Rule)
    → (refuse_if (becomes_always (snapshot s.engine).rules (with_scope sent scope)) timed_to_always
        >> ok (preserve_server_owned s.engine (with_scope sent scope)))
      ≡ ok r
    → r.scope ≡ scope
written_rule o sent scope s r h =
    let (_, last) =
      >>-eq-ok
        (refuse_if (becomes_always (snapshot s.engine).rules (with_scope sent scope))
          timed_to_always)
        _ h in
    ap (λ (x : Rule). x.scope)
      (sym (same_rule (preserve_server_owned s.engine (with_scope sent scope)) r last))
    ∙ preserve_server_owned-scope s.engine (with_scope sent scope)

settled_rule-Loads :
    (o : Outside) (p : Peer) (sent : Rule) (s : State) (r : Rule)
    → ResolvesWell o.resolve_policy
    → Loads sent.scope
    → settled_rule o p sent s ≡ ok r
    → Loads r.scope
unfolding settled_rule
settled_rule-Loads o p sent s r well l h =
    let (_, h1) = >>-eq-ok (converted (reject_unpersistable_duration sent.duration)) _ h in
    let (_, h2) = >>-eq-ok (confirm_generic_allow o.generic_allow p sent) _ h1 in
    let (scope, chosen, last) = >>=-eq-ok (chosen_scope o sent s) _ h2 in
    subst Loads (sym (written_rule o sent scope s r last))
      (chosen_scope-Loads o sent s scope well l chosen)

pub read_rule :
    (o : Outside) (m : Wire.RuleInfo) (r : Rule)
    → converted (rule_from_pb o.codec o.fresh o.now m) ≡ ok r
    → rule_from_pb o.codec o.fresh o.now m ≡ ok r
read_rule o m r h = elim (Result-cases (rule_from_pb o.codec o.fresh o.now m)) [
  | inl (x, found) ↦ ground arith
  | inr (e, refused) ↦ absurd (ground arith)
]

pub checked_rule-loads :
    (o : Outside) (p : Peer) (m : Wire.RuleInfo) (s : State) (r : Rule)
    → ResolvesWell o.resolve_policy
    → checked_rule o p m s ≡ ok r
    → load_rule r ≡ some r
unfolding checked_rule
checked_rule-loads o p m s r well h =
    let (sent, read, h1) = >>=-eq-ok (converted (rule_from_pb o.codec o.fresh o.now m)) _ h in
    let fine = rule_from_pb-checks o.codec o.fresh o.now m sent (read_rule o m sent read) in
    let (passed, host, known) = settled_rule-Loads o p sent s r well fine h1 in
    load_rule_accepted r passed host known
