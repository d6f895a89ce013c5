-- ===== src/Service/Answers.antt =====
-- crates/cfc-daemon/src/ipc/mod.rs: a client answers a prompt, and may ask for a standing rule. The
-- answer stands though the rule is refused; an error here is what the reply reports of the rule.
pub mod Accepted
pub mod Permitted
use colony_firewall_control.Prelude.{
  ℕ, Bool, true, false, not, ◌&&◌, ◌||◌, Option, none, some, [], ◌++◌, ◌==◌, if◌then◌else◌, is_none,
  Text, text_eq, codes, ok, err, ◌>>=◌, ◌>>◌, refuse_if,
}
use colony_firewall_control.Rule.{Rule, RuleScope, allow, action_eq}
use colony_firewall_control.Verdict.{user_prompt}
use colony_firewall_control.Engine.{upsert_rule}
use colony_firewall_control.Prompts.{PromptBinding, Router, submit}
use colony_firewall_control.Wire
use colony_firewall_control.Convert.{
  Codec, action_from_pb, rule_from_pb, reject_unpersistable_duration,
}
use colony_firewall_control.Storage
use colony_firewall_control.Service.{
  Outside, Peer, State, Answer, permission_denied, unbound, control, authorize,
  confirm_generic_allow, resolve_exe, path_eq, converted, stored,
}

-- The fields of a request that the call reads.
pub record VerdictRequest : Type 0 where
  pub prompt_id : Text
  pub action : ℕ
  pub duration : ℕ
  pub persist_scope : Option Wire.RuleScope

abbrev differs : Option Text → Text → Bool
differs none hash = false
differs (some existing) hash = not (text_eq existing hash)

abbrev pub with_hash : Rule → Text → Rule
with_hash r hash = record r { scope = record r.scope { exe_sha256 = some hash } }

unfoldable pub bind_prompt_allow : Rule → PromptBinding → Answer Rule
bind_prompt_allow r binding =
    if not (action_eq r.action allow) || not binding.hash_expected
    then ok r
    else if not (path_eq r.scope.exe_path binding.exe) || is_none binding.exe
    then err unbound
    else elim binding.sha256 [
      | none ↦ err unbound
      | some hash ↦ if differs r.scope.exe_sha256 hash then err unbound else ok (with_hash r hash)
    ]

-- The rule that the answer asks for, as a message. Its creation is the Unix epoch, the unset instant.
unfoldable pub rule_of_answer : Codec → VerdictRequest → Wire.RuleScope → Wire.RuleInfo
rule_of_answer c req scope = record {
  id = [];
  name = codes "user prompt " ++ req.prompt_id;
  enabled = true;
  action = req.action;
  duration = req.duration;
  scope = some scope;
  created_at_unix_ms = some c.epoch_ms;
  hit_count = 0;
  duration_seconds = 0;
}

-- The rule that is written.
unfoldable pub standing_rule : Outside → Peer → PromptBinding → Wire.RuleInfo → Answer Rule
unfolding bind_prompt_allow
standing_rule o p binding m = do
  sent ← converted (rule_from_pb o.codec o.fresh o.now m)
  converted (reject_unpersistable_duration sent.duration)
  confirm_generic_allow o.generic_allow p sent
  bound ← bind_prompt_allow sent binding
  scope ← resolve_exe o.resolve_policy bound.scope
  ok (record bound { scope = scope })

unfoldable pub persist_answer :
    Outside → Peer → PromptBinding → Wire.RuleInfo → State → Answer State
unfolding standing_rule
persist_answer o p binding m s = do
  r ← standing_rule o p binding m
  store ← stored (Storage.upsert o.works r s.store)
  ok (record { engine = upsert_rule r s.engine; store = store })

abbrev pub kept_or : State → Answer State → State
kept_or s (ok s') = s'
kept_or s (err _) = s

-- What the call does to the rules, of the binding that the router had for the prompt.
unfoldable pub persisted :
    Outside → Peer → VerdictRequest → Option PromptBinding → Option Wire.RuleScope → State → State
unfolding persist_answer rule_of_answer
persisted o p req none scope s = s
persisted o p req (some binding) none s = s
persisted o p req (some binding) (some scope) s =
    kept_or s (persist_answer o p binding (rule_of_answer o.codec req scope) s)

-- `delivered`: the prompt was delivered to the peer's user.
unfoldable pub submit_verdict :
    Outside → Peer → Bool → VerdictRequest → Router → State → Answer (Router × State)
unfolding persisted
submit_verdict o p delivered req router s = do
  authorize p control
  refuse_if (not (p.uid == 0) && not delivered) (permission_denied [])
  action ← converted (action_from_pb req.action)
  let (after, binding) =
        submit req.prompt_id (record { action = action; source = user_prompt }) router in
      ok (after, persisted o p req binding req.persist_scope s)
