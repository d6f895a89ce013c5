-- ===== src/Nfqueue/Worker.antt =====
-- `Worker` of crates/cfc-daemon/src/nfqueue/mod.rs: the packets that wait for an answer. What one
-- step draws from outside is an argument of it (`Surroundings`); what it hands to the kernel, the
-- router, the event writer, the live feed and the host cache are logs of its state.
pub mod Parking
pub mod Keys
pub mod Counted
pub mod Invariant
pub mod Table
pub mod Opened
pub mod Steps
pub mod Events
pub mod Released
pub mod Loop
use colony_firewall_control.Prelude.{
  ℕ, ◌+◌, ◌^◌, ◌%◌, Bool, true, false, not, ◌&&◌, ◌||◌, Option, none, some, List, [], ◌∷◌, ◌++◌,
  map, ltb, leb, ◌==◌, if◌then◌else◌, is_some, is_none, length, Text, err, ok,
}
use colony_firewall_control.Prelude.Maps.{Map, get, put, remove}
use colony_firewall_control.Connection.{Connection, IpAddr, Protocol, Stamp}
use colony_firewall_control.Process.{Process}
use colony_firewall_control.Packet.{Bytes, parse}
use colony_firewall_control.Rule.{Action, allow, deny, reject, action_eq}
use colony_firewall_control.Verdict.{
  Verdict, VerdictSource, rule, default_policy, timeout, user_prompt,
}
use colony_firewall_control.Engine.{Engine, Decision, resolved, needs_prompt, peek, count_hit}
use colony_firewall_control.Stats.{Stats}
use colony_firewall_control.Reject
use colony_firewall_control.Reject.{Rejecter, Kernel}
use colony_firewall_control.Nfqueue.{
  NfqVerdict, nfq_verdict_for, direction_for_hook, record_action, nf_inet_local_out,
}
use colony_firewall_control.Nfqueue.Pipeline
use colony_firewall_control.Nfqueue.Pipeline.{
  ProcessResolver, HostCache, PacketMeta, PacketOutcome, PipelineDeps, handle_packet,
}
use colony_firewall_control.Nfqueue.Worker.Keys.{
  FlowKey, flow_eq, for_flow, FlowMap, flow_get, flow_put, flow_remove,
}

-- A queued packet; `id` is the kernel's number for it.
pub record Message : Type 0 where
  pub id : ℕ
  pub payload : Bytes
  pub uid : Option ℕ
  pub gid : Option ℕ
  pub hook : ℕ
  pub outdev : ℕ

pub record ParkedPacket : Type 0 where
  pub message : Message
  pub connection : Connection
  pub process : Process

pub record PendingPrompt : Type 0 where
  pub flow : FlowKey
  pub packets : List ParkedPacket
  pub fallback : Verdict

pub record PromptRequest : Type 0 where
  pub prompt_id : ℕ
  pub connection : Connection
  pub process : Process
  pub undecided : Option ℕ

pub record PromptVerdict : Type 0 where
  pub prompt_id : ℕ
  pub verdict : Verdict

pub record ObservedConnection : Type 0 where
  pub connection : Connection
  pub process : Process
  pub verdict : Verdict
  pub undecided : Option ℕ

-- `verdicts` is what the kernel was told, oldest first.
pub record Worker : Type 0 where
  pub loopback_ifindex : ℕ
  pub engine : Engine
  pub rejecter : Rejecter
  pub stats : Stats
  pub waiters : Map PendingPrompt
  pub pending_flows : FlowMap
  pub next_prompt_id : ℕ
  pub verdict_channel_open : Bool
  pub verdicts : List (ℕ × NfqVerdict)
  pub requests : List PromptRequest
  pub events : List ObservedConnection
  pub observed : List ObservedConnection
  pub lookups : List IpAddr

-- `takes` says that the router's channel takes a request; `uuid` and `random` are fresh.
pub record Surroundings : Type 0 where
  pub stamp : Stamp
  pub now : ℕ
  pub instant : ℕ
  pub kernel : Kernel
  pub takes : Bool
  pub uuid : ℕ
  pub random : ℕ
  pub is_root_sealed : Text → Bool
  pub dns : HostCache
  pub resolver : ProcessResolver

-- The worker that `spawn` starts; `random` is what the seed is made of.
unfoldable pub prompt_session_seed : ℕ → ℕ
prompt_session_seed random = random % 2 ^ 63

unfoldable pub started : ℕ → Engine → Rejecter → Stats → ℕ → Worker
unfolding prompt_session_seed
started loopback_ifindex engine rejecter stats random = record {
  loopback_ifindex = loopback_ifindex;
  engine = engine;
  rejecter = rejecter;
  stats = stats;
  waiters = [];
  pending_flows = [];
  next_prompt_id = prompt_session_seed random;
  verdict_channel_open = true;
  verdicts = [];
  requests = [];
  events = [];
  observed = [];
  lookups = [];
}

abbrev pub max_parked_prompts : ℕ
max_parked_prompts = 512

abbrev pub max_packets_per_prompt : ℕ
max_packets_per_prompt = 4

unfoldable pub rule_id : ObservedConnection → Option ℕ
rule_id o = elim o.verdict.source [ rule id ↦ some id | _ ↦ o.undecided ]

unfoldable pub send_verdict : Message → NfqVerdict → Worker → Worker
send_verdict msg verdict w = record w { verdicts = w.verdicts ++ ((msg.id, verdict) ∷ []) }

unfoldable pub inject_refusal : Surroundings → Message → Worker → Worker
unfolding direction_for_hook parse Reject.reject
inject_refusal s msg w = elim (parse s.stamp msg.payload (direction_for_hook msg.hook)) [
  | err _ ↦ w
  | ok conn ↦ record w {
    rejecter = (Reject.reject s.kernel conn msg.payload s.instant w.rejecter).0;
  }
]

unfoldable pub apply_action : Surroundings → Message → Action → Worker → Worker
unfolding inject_refusal send_verdict nfq_verdict_for
apply_action s msg action w =
    send_verdict msg (nfq_verdict_for action)
      (if action_eq action reject then inject_refusal s msg w else w)

unfoldable pub record_observation : ObservedConnection → Worker → Worker
unfolding record_action
record_observation o w = record w {
  stats = record_action w.stats o.verdict.action;
  events = if action_eq o.verdict.action allow then w.events else w.events ++ (o ∷ []);
  observed = w.observed ++ (o ∷ []);
  lookups =
      if action_eq o.verdict.action allow
      then w.lookups ++ (o.connection.dst_ip ∷ [])
      else w.lookups;
}

unfoldable pub deliver : Surroundings → Message → ObservedConnection → Worker → Worker
unfolding apply_action record_observation
deliver s msg o w = record_observation o (apply_action s msg o.verdict.action w)

unfoldable pub deliver_fallback :
    Surroundings → Message → Connection → Process → Verdict → Option ℕ → Worker → Worker
unfolding deliver
deliver_fallback s msg c p fallback undecided =
    deliver s msg
      (record { connection = c; process = p; verdict = fallback; undecided = undecided })

-- A source that nobody chose.
abbrev pub unchosen : VerdictSource → Bool
unchosen default_policy = true
unchosen timeout = true
unchosen user_prompt = false
unchosen (rule _) = false

abbrev pub from_a_rule : VerdictSource → Bool
from_a_rule (rule _) = true
from_a_rule default_policy = false
from_a_rule timeout = false
from_a_rule user_prompt = false

-- The verdict of one parked packet, from the prompt's and from what the rules now say.
unfoldable pub settled_verdict : Verdict → Decision → Verdict × Option ℕ
settled_verdict answer (resolved current) =
    if not (action_eq current.action allow)
    then (current, none)
    else if from_a_rule current.source && unchosen answer.source
    then (current, none)
    else (answer, none)
settled_verdict answer (needs_prompt _ undecided) = (answer, undecided)

unfoldable pub credit_source : VerdictSource → Engine → Engine
unfolding count_hit
credit_source (rule id) e = count_hit id e
credit_source default_policy e = e
credit_source timeout e = e
credit_source user_prompt e = e

-- One round of the loop of `resolve_prompt`.
unfoldable pub release : Surroundings → Verdict → ParkedPacket → Worker → Worker
unfolding settled_verdict credit_source deliver peek
release s answer packet w =
    let (verdict, undecided) =
      settled_verdict answer (peek w.engine packet.connection packet.process s.now) in
    deliver s packet.message
      (record {
        connection = packet.connection;
        process = packet.process;
        verdict = verdict;
        undecided = undecided;
      })
      (record w { engine = credit_source verdict.source w.engine })

unfoldable pub release_all : Surroundings → Verdict → List ParkedPacket → Worker → Worker
unfolding release
release_all s answer [] w = w
release_all s answer (packet ∷ packets) w = release_all s answer packets (release s answer packet w)

unfoldable pub resolve_prompt : Surroundings → PromptVerdict → Worker → Worker
unfolding release_all flow_remove flow_eq
resolve_prompt s pv w = elim (get pv.prompt_id w.waiters) [
  | none ↦ w
  | some pending ↦ release_all s pv.verdict pending.packets (record w {
    waiters = remove pv.prompt_id w.waiters;
    pending_flows = flow_remove pending.flow w.pending_flows;
  })
]

-- The prompts are resolved in some order of the map; `waiters[&id]` is there for each of them.
unfoldable pub resolve_each : Surroundings → List ℕ → Worker → Worker
unfolding resolve_prompt
resolve_each s [] w = w
resolve_each s (id ∷ ids) w = elim (get id w.waiters) [
  | none ↦ resolve_each s ids w
  | some pending ↦
      resolve_each s ids
        (resolve_prompt s (record { prompt_id = id; verdict = pending.fallback }) w)
]

unfoldable pub flush_waiters_disconnected : Surroundings → Worker → Worker
unfolding resolve_each
flush_waiters_disconnected s w = resolve_each s (map (λ x. x.0) w.waiters) w

unfoldable pub close_verdict_channel : Surroundings → Worker → Worker
unfolding flush_waiters_disconnected
close_verdict_channel s w = flush_waiters_disconnected s (record w { verdict_channel_open = false })
