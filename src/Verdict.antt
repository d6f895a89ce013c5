-- ===== src/Verdict.antt =====
-- crates/cfc-core/src/verdict.rs: the decision returned to the kernel, and where it comes from.
use colony_firewall_control.Prelude.{ℕ}
use colony_firewall_control.Rule.{Action, allow, deny}

pub data VerdictSource : Type 0 where
  rule : ℕ → VerdictSource
  user_prompt : VerdictSource
  default_policy : VerdictSource
  timeout : VerdictSource

pub record Verdict : Type 0 where
  pub action : Action
  pub source : VerdictSource

abbrev pub from_rule : Action → ℕ → Verdict
from_rule action rule_id = record { action = action; source = rule rule_id }

abbrev pub deny_from_rule : ℕ → Verdict
deny_from_rule rule_id = from_rule deny rule_id

abbrev pub from_policy : Action → Verdict
from_policy action = record { action = action; source = default_policy }

abbrev pub default_allow : Verdict
default_allow = from_policy allow

abbrev pub default_deny : Verdict
default_deny = from_policy deny
