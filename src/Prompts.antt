-- ===== src/Prompts.antt =====
-- crates/cfc-daemon/src/prompts.rs: the prompt router. Each function is one step under the
-- router's locks; what the environment decides (the clock, whether the broadcast finds a receiver,
-- when a sweeper wakes) is in the order of the steps (Prompts/Steps).
pub mod Steps
pub mod Once
pub mod Census
use mathlib.Core.Option.{get_or}
use colony_firewall_control.Prelude.{
  ℕ, ◌+◌, ◌-◌, ◌*◌, ◌%◌, ◌^◌, Bool, true, false, not, ◌||◌, ◌&&◌, Option, none, some, List, [], ◌∷◌,
  ◌++◌, ltb, leb, ◌==◌, if◌then◌else◌, is_none_or, or, Text,
}
use colony_firewall_control.Prelude.Maps.{Map, get, put, remove}
use colony_firewall_control.Connection.{Connection}
use colony_firewall_control.Process.{Process, exe_is_known}
use colony_firewall_control.Rule.Guards.{is_absolute}
use colony_firewall_control.Verdict.{Verdict, from_policy}
use colony_firewall_control.Config.{DefaultPolicy}

-- May a subscriber be shown a prompt about a process of this owner?
unfoldable pub should_deliver : Option ℕ → ℕ → Bool
should_deliver process_uid subscriber_uid =
    subscriber_uid == 0 || is_none_or process_uid (λ owner. owner == subscriber_uid)

pub record PromptBinding : Type 0 where
  pub exe : Option Text
  pub hash_expected : Bool
  pub sha256 : Option Text

abbrev pub default_binding : PromptBinding
default_binding = record { exe = none; hash_expected = false; sha256 = none }

-- `sent` is the verdict channel to the worker, oldest first; `prompts_pending` is the gauge of
-- stats.rs.
pub record Router : Type 0 where
  pub pending : Map PromptBinding
  pub subscribers : Map ℕ
  pub default_policy : DefaultPolicy
  pub prompts_pending : ℕ
  pub sent : List (ℕ × Verdict)

-- `PromptRouter::new`.
unfoldable pub new : DefaultPolicy → Router
new policy = record {
  pending = [];
  subscribers = [];
  default_policy = policy;
  prompts_pending = 0;
  sent = [];
}

-- Atomic counters wrap.
abbrev pub counter_mod : ℕ
counter_mod = 2 ^ 64

unfoldable pub prompts_inc : Router → Router
prompts_inc r = record r { prompts_pending = (r.prompts_pending + 1) % counter_mod }

unfoldable pub prompts_dec : Router → Router
prompts_dec r = record r { prompts_pending = (r.prompts_pending + counter_mod - 1) % counter_mod }

unfoldable pub send : ℕ → Verdict → Router → Router
send id verdict r = record r { sent = r.sent ++ ((id, verdict) ∷ []) }

unfoldable pub register : ℕ → Router → Router
register uid r = record r {
  subscribers = put uid (get_or (get uid r.subscribers) 0 + 1) r.subscribers;
}

unfoldable pub unregister : ℕ → Router → Router
unregister uid r = elim (get uid r.subscribers) [
  | none ↦ r
  | some n ↦
      if n - 1 == 0
      then record r { subscribers = remove uid r.subscribers }
      else record r { subscribers = put uid (n - 1) r.subscribers }
]

-- `.keys().any(…)`.
unfoldable pub any_key {ℓ} : {V : Type ℓ} → (ℕ → Bool) → Map V → Bool
any_key p [] = false
any_key p ((k, _) ∷ m) = let rest = any_key p m in p k || rest

unfoldable pub has_audience : Option ℕ → Router → Bool
unfolding any_key should_deliver
has_audience process_uid r = any_key (should_deliver process_uid) r.subscribers

unfoldable pub no_ui_verdict : Router → Verdict
no_ui_verdict r = from_policy r.default_policy.no_ui_action

-- The census entry of a subscription: an answering one holds its uid.
unfoldable pub subscribe : ℕ → Bool → Router → Router × Option ℕ
unfolding register
subscribe uid answering r = if answering then (register uid r, some uid) else (r, none)

-- `Drop for PromptSubscription`.
unfoldable pub drop_subscription : Option ℕ → Router → Router
unfolding unregister
drop_subscription none r = r
drop_subscription (some uid) r = unregister uid r

-- The removal that arbitrates between the resolution paths: whoever finds the entry answers.
unfoldable pub resolve : ℕ → Verdict → Router → Router × Option PromptBinding
unfolding prompts_dec send
resolve id verdict r = elim (get id r.pending) [
  | none ↦ (r, none)
  | some binding ↦
      (send id verdict (prompts_dec (record r { pending = remove id r.pending })), some binding)
]

-- `str::parse::<u64>`.
unfoldable pub parse_digits : ℕ → Text → Option ℕ
parse_digits acc [] = some acc
parse_digits acc (c ∷ cs) =
    let next = acc * 10 + (c - b'0') in
    let rest = parse_digits next cs in
    if leb b'0' c && leb c b'9' && ltb next counter_mod then rest else none

unfoldable pub parse_u64 : Text → Option ℕ
unfolding parse_digits
parse_u64 [] = none
parse_u64 (c ∷ []) = if c == b'+' then none else parse_digits 0 (c ∷ [])
parse_u64 (c ∷ d ∷ cs) = if c == b'+' then parse_digits 0 (d ∷ cs) else parse_digits 0 (c ∷ d ∷ cs)

unfoldable pub submit : Text → Verdict → Router → Router × Option PromptBinding
unfolding parse_u64 resolve
submit prompt_id verdict r = elim (parse_u64 prompt_id) [
  | none ↦ (r, none)
  | some id ↦ resolve id verdict r
]

pub record PromptRequest : Type 0 where
  pub prompt_id : ℕ
  pub connection : Connection
  pub process : Process
  pub undecided : Option ℕ

-- What is broadcast to the subscribers.
pub record PromptEvent : Type 0 where
  pub prompt_id : ℕ
  pub connection : Connection
  pub process : Process
  pub deadline_unix_ms : ℕ
  pub binds_to_hash : Bool
  pub undecided_rule_id : Option ℕ

unfoldable pub event_of : PromptRequest → PromptBinding → ℕ → ℕ → PromptEvent
event_of req binding now timeout_secs = record {
  prompt_id = req.prompt_id;
  connection = req.connection;
  process = record req.process { sha256 = or binding.sha256 req.process.sha256 };
  deadline_unix_ms = now + timeout_secs * 1000;
  binds_to_hash = binding.hash_expected;
  undecided_rule_id = req.undecided;
}

-- `enqueue` up to the broadcast: the event that is left to send, if there is one.
unfoldable pub enqueue : PromptRequest → PromptBinding → ℕ → Router → Router × Option PromptEvent
unfolding has_audience send no_ui_verdict prompts_inc
enqueue req binding now r =
    if not (has_audience req.process.uid r)
    then (send req.prompt_id (no_ui_verdict r) r, none)
    else (
      prompts_inc (record r { pending = put req.prompt_id binding r.pending }),
      some (event_of req binding now r.default_policy.prompt_timeout_secs),
    )

-- The broadcast found no receiver: the prompt is reclaimed.
unfoldable pub reclaim : ℕ → Router → Router
unfolding resolve no_ui_verdict
reclaim id r = (resolve id (no_ui_verdict r) r).0

-- The sweeper that was spawned after a broadcast wakes up.
unfoldable pub sweep : ℕ → Router → Router
unfolding resolve
sweep id r = (resolve id (from_policy r.default_policy.timeout_action) r).0

-- SIGHUP swaps the shared policy.
unfoldable pub reload : DefaultPolicy → Router → Router
reload policy r = record r { default_policy = policy }

-- `sealed` is the answer of `exe_path::is_root_sealed`, false where it failed.
unfoldable pub compute_binding : Process → Bool → PromptBinding
compute_binding p sealed =
    if not (exe_is_known p) || not (is_absolute p.exe)
    then default_binding
    else if sealed
    then record { exe = some p.exe; hash_expected = false; sha256 = none }
    else record { exe = some p.exe; hash_expected = true; sha256 = p.sha256 }
