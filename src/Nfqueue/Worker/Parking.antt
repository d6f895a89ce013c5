-- ===== src/Nfqueue/Worker/Parking.antt =====
-- What `Worker` of crates/cfc-daemon/src/nfqueue/mod.rs does with a packet that comes.
use colony_firewall_control.Prelude.{
  ℕ, ◌+◌, ◌^◌, not, ◌&&◌, Option, none, some, [], ◌∷◌, ◌++◌, ltb, leb, ◌==◌, if◌then◌else◌, length,
}
use colony_firewall_control.Prelude.Maps.{get, put}
use colony_firewall_control.Connection.{Connection}
use colony_firewall_control.Process.{Process}
use colony_firewall_control.Verdict.{Verdict}
use colony_firewall_control.Nfqueue.{direction_for_hook, nf_inet_local_out}
use colony_firewall_control.Nfqueue.Pipeline
use colony_firewall_control.Nfqueue.Pipeline.{
  ProcessResolver, HostCache, PacketMeta, PacketOutcome, PipelineDeps, handle_packet,
}
use colony_firewall_control.Nfqueue.Worker.Keys.{
  FlowKey, flow_eq, for_flow, flow_get, flow_put, flow_remove,
}
use colony_firewall_control.Nfqueue.Worker.{
  Message, PendingPrompt, Worker, Surroundings, prompt_session_seed, max_parked_prompts,
  max_packets_per_prompt, send_verdict, deliver, deliver_fallback,
}

-- `checked_add(1).unwrap_or_else(prompt_session_seed)` on a `u64`.
abbrev pub next_id : ℕ → ℕ → ℕ
next_id random n = if ltb (n + 1) (2 ^ 64) then n + 1 else prompt_session_seed random

-- A new prompt, if there is room and the router takes it.
unfoldable pub open_prompt :
    Surroundings → FlowKey → Message → Connection → Process → Verdict → Option ℕ → Worker → Worker
unfolding deliver_fallback flow_put flow_eq prompt_session_seed
open_prompt s flow msg c p fallback undecided w =
    let id = w.next_prompt_id in
    let numbered : Worker = record w { next_prompt_id = next_id s.random id } in
    if leb max_parked_prompts (length w.waiters)
    then deliver_fallback s msg c p fallback undecided w
    else if s.takes
    then record numbered {
      requests =
          w.requests
          ++ (record { prompt_id = id; connection = c; process = p; undecided = undecided } ∷ []);
      pending_flows = flow_put flow id w.pending_flows;
      waiters =
          put id
            (record {
              flow = flow;
              packets = record { message = msg; connection = c; process = p } ∷ [];
              fallback = fallback;
            })
            w.waiters;
    }
    else deliver_fallback s msg c p fallback undecided numbered

-- A packet that rides on a prompt that is open, if there is room.
unfoldable pub ride :
    Surroundings
    → ℕ
    → PendingPrompt
    → Message
    → Connection
    → Process
    → Verdict
    → Option ℕ
    → Worker
    → Worker
unfolding deliver_fallback
ride s id pending msg c p fallback undecided w =
    if leb max_packets_per_prompt (length pending.packets)
    then deliver_fallback s msg c p fallback undecided w
    else record w {
      waiters =
          put id
            (record pending {
              packets =
                  pending.packets ++ (record { message = msg; connection = c; process = p } ∷ []);
            })
            w.waiters;
    }

unfoldable pub park_for_prompt :
    Surroundings → Message → Connection → Process → Verdict → Option ℕ → Worker → Worker
unfolding for_flow flow_eq flow_get flow_remove open_prompt ride
park_for_prompt s msg c p fallback undecided w =
    let flow = for_flow s.is_root_sealed s.uuid c p in
    elim (flow_get flow w.pending_flows) [
      | none ↦ open_prompt s flow msg c p fallback undecided w
      | some id ↦ elim (get id w.waiters) [
        | some pending ↦ ride s id pending msg c p fallback undecided w
        | none ↦
            open_prompt s flow msg c p fallback undecided
              (record w { pending_flows = flow_remove flow w.pending_flows })
      ]
    ]

abbrev pub meta_of : Worker → Message → PacketMeta
meta_of w msg = record {
  uid = msg.uid;
  gid = msg.gid;
  direction = direction_for_hook msg.hook;
  loopback =
      msg.hook == nf_inet_local_out
      && not (w.loopback_ifindex == 0)
      && msg.outdev == w.loopback_ifindex;
}

unfoldable pub dispatch : Surroundings → Message → PacketOutcome → Worker → Worker
unfolding send_verdict deliver park_for_prompt
dispatch s msg (Pipeline.silent verdict) w = send_verdict msg verdict w
dispatch s msg (Pipeline.deliver c p verdict) w =
    deliver s msg (record { connection = c; process = p; verdict = verdict; undecided = none }) w
dispatch s msg (Pipeline.prompt c p fallback undecided) w =
    park_for_prompt s msg c p fallback undecided w

unfoldable pub handle_message : Surroundings → Message → Worker → Worker
unfolding handle_packet dispatch
handle_message s msg w =
    let deps : PipelineDeps = record {
      engine = w.engine;
      paused = w.stats.paused;
      dns = s.dns;
      resolver = s.resolver;
    } in
    let (engine, outcome) = handle_packet deps (meta_of w msg) s.stamp s.now msg.payload in
    dispatch s msg outcome (record w { engine = engine })
