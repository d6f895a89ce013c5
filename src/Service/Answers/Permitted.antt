-- ===== src/Service/Answers/Permitted.antt =====
-- crates/cfc-daemon/src/ipc/mod.rs: who can write a rule by either call that writes a single one.
use mathlib.Core.Path.{subst}
use colony_firewall_control.Prelude.{
  ◌≡◌, ◌⊎◌, refl, sym, ap, Bool, true, not, ◌&&◌, ◌||◌, ◌==◌, Option, none, some, [], Result, ok,
  refuse_if, >>=-eq-ok, >>-eq-ok, Result-cases, inl, inr,
}
use colony_firewall_control.Rule.{Rule}
use colony_firewall_control.Verdict.{user_prompt}
use colony_firewall_control.Engine.{upsert_rule}
use colony_firewall_control.Prompts.{PromptBinding, Router, submit}
use colony_firewall_control.Wire
use colony_firewall_control.Convert.{action_from_pb}
use colony_firewall_control.Storage
use colony_firewall_control.Service.{
  Outside, Peer, State, Status, authorize, control, permission_denied, converted, stored,
  call_upsert_rule,
}
use colony_firewall_control.Service.Permitted.{
  is_root, is_official, may_open, authorized, call_upsert_rule-written, same_state,
}
use colony_firewall_control.Service.Answers.{
  VerdictRequest, standing_rule, persist_answer, persisted, rule_of_answer, submit_verdict,
}
use colony_firewall_control.Service.Answers.Accepted.{standing_rule-may_open}

-- A call that writes at most one rule.
pub data Writes (o : Outside) (p : Peer) (s : State) : State → Type 0 where
  upserted :
      {s' : State} (m : Wire.RuleInfo) → call_upsert_rule o p (some m) s ≡ ok s' → Writes o p s s'
  answered :
      {s' : State} (router router' : Router) (delivered : Bool) (req : VerdictRequest)
      → submit_verdict o p delivered req router s ≡ ok (router', s')
      → Writes o p s s'

-- Nothing was written, or a rule that its author may write.
abbrev pub Written : Outside → Peer → State → State → Type 0
Written o p s s' =
    (s' ≡ s) ⊎ ((r : Rule) × (s'.engine ≡ upsert_rule r s.engine) × (may_open o p r ≡ true))

persist_answer-Written :
    (o : Outside) (p : Peer) (binding : PromptBinding) (m : Wire.RuleInfo) (s s' : State)
    → persist_answer o p binding m s ≡ ok s'
    → Written o p s s'
unfolding persist_answer
persist_answer-Written o p binding m s s' h =
    let (r, checked, h1) = >>=-eq-ok (standing_rule o p binding m) _ h in
    let (store, _, last) = >>=-eq-ok (stored (Storage.upsert o.works r s.store)) _ h1 in
    inr (
      r,
      ap (λ (x : State). x.engine)
          (sym (same_state (record { engine = upsert_rule r s.engine; store = store }) s' last)),
      standing_rule-may_open o p binding m r checked,
    )

persisted-Written :
    (o : Outside) (p : Peer) (req : VerdictRequest) (binding : Option PromptBinding)
    (scope : Option Wire.RuleScope) (s : State)
    → Written o p s (persisted o p req binding scope s)
unfolding persisted
persisted-Written o p req none scope s = inl refl
persisted-Written o p req (some binding) none s = inl refl
persisted-Written o p req (some binding) (some scope) s =
    let m = rule_of_answer o.codec req scope in
    elim (Result-cases (persist_answer o p binding m s)) [
      | inl (s', done) ↦ rw done (persist_answer-Written o p binding m s s' done)
      | inr (e, refused) ↦ rw refused (inl refl)
    ]

answer_kept :
    {A : Type 0} (a b : A) (s s' : State)
    → ◌≡◌ {A = Result Status (A × State)} (ok (a, s)) (ok (b, s'))
    → s ≡ s'
answer_kept a b s s' h = cc

answered-permitted :
    (o : Outside) (p : Peer) (delivered : Bool) (req : VerdictRequest) (router router' : Router)
    (s s' : State)
    → submit_verdict o p delivered req router s ≡ ok (router', s')
    → ((is_root p || is_official p) ≡ true) × Written o p s s'
unfolding submit_verdict
answered-permitted o p delivered req router router' s s' h =
    let (passed, h1) = >>-eq-ok (authorize p control) _ h in
    let (_, h2) =
      >>-eq-ok (refuse_if (not (p.uid == 0) && not delivered) (permission_denied [])) _ h1 in
    let (action, _, last) = >>=-eq-ok (converted (action_from_pb req.action)) _ h2 in
    let (after, binding) =
      submit req.prompt_id (record { action = action; source = user_prompt }) router in
    (
      authorized p passed,
      subst (Written o p s)
          (answer_kept after router' (persisted o p req binding req.persist_scope s) s' last)
          (persisted-Written o p req binding req.persist_scope s),
    )

-- A client whose UpsertRule or SubmitVerdict call succeeds is root or of the daemon's user, or an
-- official client in the required group. Such a call leaves rules and store as they are, or puts one
-- rule in force, which is an enabled Allow for every program only where the client is root or of the
-- daemon's user, or polkit agreed.
pub Writes-permitted :
    {o : Outside} {p : Peer} {s s' : State}
    → Writes o p s s'
    → ((is_root p || is_official p) ≡ true) × Written o p s s'
Writes-permitted {o} {p} {s} {s'} (upserted m h) =
    let (passed, r, engine, open_to) = call_upsert_rule-written o p m s s' h in
    (passed, inr (r, engine, open_to))
Writes-permitted {o} {p} {s} {s'} (answered router router' delivered req h) =
    answered-permitted o p delivered req router router' s s' h
