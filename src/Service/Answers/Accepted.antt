-- ===== src/Service/Answers/Accepted.antt =====
-- crates/cfc-daemon/src/ipc/mod.rs: the standing rule of an answer is one that a start loads as it
-- is, and one that its author may write.
use mathlib.Core.Path.{subst}
use colony_firewall_control.Prelude.{
  ◌≡◌, ◌⊎◌, true, refl, sym, ◌∙◌, ap, not, ◌||◌, some, ok, >>=-eq-ok, >>-eq-ok, Bool-cases,
  Option-cases, Text, inl, inr, arith,
}
use colony_firewall_control.Rule.{Rule, RuleScope, allow, action_eq}
use colony_firewall_control.Rule.Scope.{names_program, specificity}
use colony_firewall_control.Rule.Guards.{
  reject_unmatchable_exe, reject_unmatchable_parent, reject_inbound_destination_scope,
  reject_unattributable_inbound_scope,
}
use colony_firewall_control.Prompts.{PromptBinding}
use colony_firewall_control.Wire
use colony_firewall_control.Convert.{
  checks, reject_unscoped, rule_from_pb, reject_unpersistable_duration, scope_check,
}
use colony_firewall_control.Convert.Stable.{rule_from_pb-checks}
use colony_firewall_control.Storage.{load_rule}
use colony_firewall_control.Storage.Loaded.{load_rule_accepted}
use colony_firewall_control.Service.{
  Outside, Peer, confirm_generic_allow, opens_for_every_program, converted, resolve_exe,
}
use colony_firewall_control.Service.Accepted.{
  ResolvesWell, Loads, resolve_exe-Loads, read_rule, same_rule,
}
use colony_firewall_control.Service.Permitted.{
  may_open, confirmed, resolve_exe-names_program, is_root, is_ok,
}
use colony_firewall_control.Service.Answers.{bind_prompt_allow, standing_rule, with_hash}

module _ (s : RuleScope) (path hash : Text) (named : s.exe_path ≡ some path) where
  abbrev hashed : RuleScope
  hashed = record s { exe_sha256 = some hash }

  unscoped_hashed : reject_unscoped hashed ≡ ok tt
  unfolding reject_unscoped specificity
  unscoped_hashed = ground arith

  unattributable_hashed :
      scope_check (reject_unattributable_inbound_scope s) ≡ ok tt
      → scope_check (reject_unattributable_inbound_scope hashed) ≡ ok tt
  unfolding reject_unattributable_inbound_scope
  unattributable_hashed h = ground arith

  checks-hash : checks s ≡ ok tt → checks hashed ≡ ok tt
  unfolding checks reject_unmatchable_exe reject_unmatchable_parent reject_inbound_destination_scope
  checks-hash h =
      let (_, h1) = >>-eq-ok (reject_unscoped s) _ h in
      let (exe, h2) = >>-eq-ok (scope_check (reject_unmatchable_exe s)) _ h1 in
      let (parent, h3) = >>-eq-ok (scope_check (reject_unmatchable_parent s)) _ h2 in
      let (inbound, last) = >>-eq-ok (scope_check (reject_inbound_destination_scope s)) _ h3 in
      rw (unscoped_hashed, exe, parent, inbound) (unattributable_hashed last)

-- Binding keeps a rule as it is, or gives it the hash of a program that it names already.
bind_cases :
    (r bound : Rule) (binding : PromptBinding)
    → bind_prompt_allow r binding ≡ ok bound
    → (r ≡ bound)
      ⊎ ((path : Text) × (hash : Text) × (r.scope.exe_path ≡ some path)
          × (with_hash r hash ≡ bound))
unfolding bind_prompt_allow
bind_cases r bound binding h = elim (Option-cases r.scope.exe_path) [
  | inl unnamed ↦ elim (Option-cases binding.exe) [
    | inl unknown ↦ inl (same_rule r bound (ground arith))
    | inr (known, e) ↦ inl (same_rule r bound (ground arith))
  ]
  | inr (path, named) ↦ elim (Option-cases binding.sha256) [
    | inl unhashed ↦ inl (same_rule r bound (ground arith))
    | inr (hash, found) ↦
        elim (Bool-cases (not (action_eq r.action allow) || not binding.hash_expected)) [
          | inl kept ↦ inl (same_rule r bound (ground arith))
          | inr expected ↦
              inr (path, hash, named, same_rule (with_hash r hash) bound (ground arith))
        ]
  ]
]

bound-Loads :
    (r bound : Rule) (binding : PromptBinding)
    → bind_prompt_allow r binding ≡ ok bound
    → Loads r.scope
    → Loads bound.scope
bound-Loads r bound binding h l = elim (bind_cases r bound binding h) [
  | inl same ↦ subst (λ (x : Rule). Loads x.scope) same l
  | inr (path, hash, named, same) ↦
      subst (λ (x : Rule). Loads x.scope) same (checks-hash r.scope path hash named l.0, l.1, l.2)
]

-- The standing rule of an answer is one that a start loads as it is.
pub standing_rule-loads :
    (o : Outside) (p : Peer) (binding : PromptBinding) (m : Wire.RuleInfo) (r : Rule)
    → ResolvesWell o.resolve_policy
    → standing_rule o p binding m ≡ ok r
    → load_rule r ≡ some r
unfolding standing_rule
standing_rule-loads o p binding m r well h =
    let (sent, read, h1) = >>=-eq-ok (converted (rule_from_pb o.codec o.fresh o.now m)) _ h in
    let fine = rule_from_pb-checks o.codec o.fresh o.now m sent (read_rule o m sent read) in
    let (_, h2) = >>-eq-ok (converted (reject_unpersistable_duration sent.duration)) _ h1 in
    let (_, h3) = >>-eq-ok (confirm_generic_allow o.generic_allow p sent) _ h2 in
    let (bound, bind, h4) = >>=-eq-ok (bind_prompt_allow sent binding) _ h3 in
    let (scope, resolved, last) = >>=-eq-ok (resolve_exe o.resolve_policy bound.scope) _ h4 in
    let (passed, host, known) =
      resolve_exe-Loads o bound.scope scope well (bound-Loads sent bound binding bind fine)
        resolved in
    subst (λ (x : Rule). load_rule x ≡ some x) (same_rule (record bound { scope = scope }) r last)
      (load_rule_accepted (record bound { scope = scope }) passed host known)

opens_bound :
    (r bound : Rule) (binding : PromptBinding)
    → bind_prompt_allow r binding ≡ ok bound
    → opens_for_every_program bound ≡ opens_for_every_program r
unfolding opens_for_every_program names_program
opens_bound r bound binding h = elim (bind_cases r bound binding h) [
  | inl same ↦ sym (ap opens_for_every_program same)
  | inr (path, hash, named, same) ↦ sym (ap opens_for_every_program same) ∙ ground (arith, named)
]

opens_resolved :
    (r : Rule) (scope : RuleScope)
    → names_program scope ≡ names_program r.scope
    → opens_for_every_program (record r { scope = scope }) ≡ opens_for_every_program r
unfolding opens_for_every_program
opens_resolved r scope h = rw h refl

-- Its author may write it.
pub standing_rule-may_open :
    (o : Outside) (p : Peer) (binding : PromptBinding) (m : Wire.RuleInfo) (r : Rule)
    → standing_rule o p binding m ≡ ok r
    → may_open o p r ≡ true
unfolding standing_rule
standing_rule-may_open o p binding m r h =
    let (sent, read, h1) = >>=-eq-ok (converted (rule_from_pb o.codec o.fresh o.now m)) _ h in
    let (_, h2) = >>-eq-ok (converted (reject_unpersistable_duration sent.duration)) _ h1 in
    let (asked, h3) = >>-eq-ok (confirm_generic_allow o.generic_allow p sent) _ h2 in
    let (bound, bind, h4) = >>=-eq-ok (bind_prompt_allow sent binding) _ h3 in
    let (scope, resolved, last) = >>=-eq-ok (resolve_exe o.resolve_policy bound.scope) _ h4 in
    let named = resolve_exe-names_program o.resolve_policy bound.scope scope resolved in
    ap (λ x. not x || is_root p || is_ok (p.polkit o.generic_allow))
      (sym (ap opens_for_every_program (same_rule (record bound { scope = scope }) r last))
        ∙ opens_resolved bound scope named
        ∙ opens_bound sent bound binding bind)
    ∙ confirmed o p sent asked
