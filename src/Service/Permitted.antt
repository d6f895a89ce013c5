-- ===== src/Service/Permitted.antt =====
-- crates/cfc-daemon/src/ipc/mod.rs: who can make a call write a rule.
use colony_firewall_control.Prelude.{
  ◌≡◌, sym, ◌∙◌, ap, Bool, true, false, not, ◌&&◌, ◌||◌, some, ◌==◌, Text, Result, ok, err,
  refuse_if, >>=-eq-ok, >>-eq-ok, Bool-cases, inl, inr, arith,
}
use colony_firewall_control.Rule.{Rule, RuleScope}
use colony_firewall_control.Rule.Scope.{names_program}
use colony_firewall_control.Engine.{Engine, snapshot, preserve_server_owned, upsert_rule}
use colony_firewall_control.Wire
use colony_firewall_control.Convert.{rule_from_pb, reject_unpersistable_duration}
use colony_firewall_control.Storage
use colony_firewall_control.Service.{
  Outside, Peer, State, Answer, gate, standing, standing_at, authorize, control, asked,
  confirm_generic_allow, opens_for_every_program, chosen_scope, resolve_exe, keeps_stored_exe,
  becomes_always, timed_to_always, converted, stored, settled_rule, checked_rule,
  upsert_rule_checked, call_upsert_rule,
}

abbrev pub is_ok {ℓ} : {A : Type ℓ} → Result Text A → Bool
is_ok (ok _) = true
is_ok (err _) = false

-- Root, or the daemon's own user.
abbrev pub is_root : Peer → Bool
is_root p = p.uid == 0 || p.uid == p.own_uid

-- A member of the group, where one is required, that is an official client.
abbrev pub is_official : Peer → Bool
is_official p = (not p.require_group || p.in_group) && is_ok p.official

-- polkit lets the peer write the rule, or need not be asked.
abbrev pub may_open : Outside → Peer → Rule → Bool
may_open o p r = not (opens_for_every_program r) || is_root p || is_ok (p.polkit o.generic_allow)

pub authorized : (p : Peer) → authorize p control ≡ ok tt → (is_root p || is_official p) ≡ true
unfolding authorize standing standing_at gate
authorized p h = ground arith

pub confirmed :
    (o : Outside) (p : Peer) (r : Rule)
    → confirm_generic_allow o.generic_allow p r ≡ ok tt
    → may_open o p r ≡ true
unfolding confirm_generic_allow gate
confirmed o p r h = ground arith

pub resolve_exe-names_program :
    (resolve_policy : Text → Result Text Text) (s s' : RuleScope)
    → resolve_exe resolve_policy s ≡ ok s'
    → names_program s' ≡ names_program s
unfolding resolve_exe names_program
resolve_exe-names_program resolve_policy s s' h = ground arith

chosen_scope-names_program :
    (o : Outside) (sent : Rule) (s : State) (scope : RuleScope)
    → chosen_scope o sent s ≡ ok scope
    → names_program scope ≡ names_program sent.scope
unfolding chosen_scope
chosen_scope-names_program o sent s scope h =
    elim (Bool-cases (keeps_stored_exe (snapshot s.engine).rules sent)) [
      | inl kept ↦ ground arith
      | inr fresh ↦ resolve_exe-names_program o.resolve_policy sent.scope scope (ground arith)
    ]

-- A stored rule opens for every program exactly if the rule that was sent does.
opens_again :
    (e : Engine) (sent : Rule) (scope : RuleScope)
    → names_program scope ≡ names_program sent.scope
    → opens_for_every_program (preserve_server_owned e (record sent { scope = scope }))
      ≡ opens_for_every_program sent
unfolding opens_for_every_program preserve_server_owned
opens_again e sent scope h = ground arith

same_rule : (a b : Rule) → ◌≡◌ {A = Answer Rule} (ok a) (ok b) → a ≡ b
same_rule a b h = cc

pub same_state : (a b : State) → ◌≡◌ {A = Answer State} (ok a) (ok b) → a ≡ b
same_state a b h = cc

settled_rule-may_open :
    (o : Outside) (p : Peer) (sent : Rule) (s : State) (r : Rule)
    → settled_rule o p sent s ≡ ok r
    → may_open o p r ≡ true
unfolding settled_rule
settled_rule-may_open o p sent s r h =
    let (_, h1) = >>-eq-ok (converted (reject_unpersistable_duration sent.duration)) _ h in
    let (asked, h2) = >>-eq-ok (confirm_generic_allow o.generic_allow p sent) _ h1 in
    let (scope, chosen, h3) = >>=-eq-ok (chosen_scope o sent s) _ h2 in
    let moved : Rule = record sent { scope = scope } in
    let (_, last) =
      >>-eq-ok (refuse_if (becomes_always (snapshot s.engine).rules moved) timed_to_always) _ h3 in
    let same = same_rule (preserve_server_owned s.engine moved) r last in
    let named = chosen_scope-names_program o sent s scope chosen in
    ap (λ x. not x || is_root p || is_ok (p.polkit o.generic_allow))
      (sym (ap opens_for_every_program same) ∙ opens_again s.engine sent scope named)
    ∙ confirmed o p sent asked

-- A client whose UpsertRule call succeeds is root or of the daemon's user, or an official client in
-- the required group; the rule that enters the engine is an enabled Allow for every program only
-- where the client is root or of the daemon's user, or polkit agreed.
pub call_upsert_rule-written :
    (o : Outside) (p : Peer) (m : Wire.RuleInfo) (s s' : State)
    → call_upsert_rule o p (some m) s ≡ ok s'
    → ((is_root p || is_official p) ≡ true)
      × (r : Rule) × (s'.engine ≡ upsert_rule r s.engine)
      × (may_open o p r ≡ true)
unfolding call_upsert_rule upsert_rule_checked checked_rule
call_upsert_rule-written o p m s s' h =
    let (passed, h1) = >>-eq-ok (authorize p control) _ h in
    let (r, checked, h2) = >>=-eq-ok (checked_rule o p m s) _ h1 in
    let (store, _, last) = >>=-eq-ok (stored (Storage.upsert o.works r s.store)) _ h2 in
    let (sent, _, settled) =
      >>=-eq-ok (converted (rule_from_pb o.codec o.fresh o.now m)) _ checked in
    (
      authorized p passed,
      r,
      ap (λ (x : State). x.engine)
          (sym (same_state (record { engine = upsert_rule r s.engine; store = store }) s' last)),
      settled_rule-may_open o p sent s r settled,
    )
