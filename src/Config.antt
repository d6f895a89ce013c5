-- ===== src/Config.antt =====
-- crates/cfc-daemon/src/config.rs: the default policy, its profiles and the overlay of the
-- `[default_policy]` table.
pub mod Inbound
pub mod File
use colony_firewall_control.Prelude.{ℕ, Option, none, some, if◌then◌else◌, Text, codes, text_eq}
use mathlib.Core.Option.{get_or}
use colony_firewall_control.Rule.{Action, allow, deny, reject}
use colony_firewall_control.Rule.Digest.{trim, to_ascii_lowercase}

pub record DefaultPolicy : Type 0 where
  pub no_ui_action : Action
  pub timeout_action : Action
  pub inbound_action : Action
  pub prompt_timeout_secs : ℕ

-- The table as it is written: a field that is absent is `none`.
pub record DefaultPolicyToml : Type 0 where
  pub no_ui_action : Option Action
  pub timeout_action : Option Action
  pub inbound_action : Option Action
  pub prompt_timeout_secs : Option ℕ

pub data Profile : Type 0 where
  relaxed balanced strict : Profile

unfoldable pub parse : Text → Option Profile
parse s =
    let word = to_ascii_lowercase (trim s) in
    if text_eq word (codes "relaxed")
    then some relaxed
    else if text_eq word (codes "balanced")
    then some balanced
    else if text_eq word (codes "strict")
    then some strict
    else none

unfoldable pub policy : Profile → DefaultPolicy
policy relaxed = record {
  no_ui_action = deny;
  timeout_action = deny;
  inbound_action = reject;
  prompt_timeout_secs = 60;
}
policy balanced = record {
  no_ui_action = deny;
  timeout_action = deny;
  inbound_action = deny;
  prompt_timeout_secs = 30;
}
policy strict = record {
  no_ui_action = deny;
  timeout_action = deny;
  inbound_action = deny;
  prompt_timeout_secs = 15;
}

-- Allow is not on the menu for inbound flows.
abbrev pub inbound_choice : Action → Action
inbound_choice allow = deny
inbound_choice deny = deny
inbound_choice reject = reject

unfoldable pub resolve : DefaultPolicyToml → DefaultPolicy → DefaultPolicy
resolve t base = record {
  no_ui_action = get_or t.no_ui_action base.no_ui_action;
  timeout_action = get_or t.timeout_action base.timeout_action;
  inbound_action = inbound_choice (get_or t.inbound_action base.inbound_action);
  prompt_timeout_secs = get_or t.prompt_timeout_secs base.prompt_timeout_secs;
}
