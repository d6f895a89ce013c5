-- ===== src/Scenarios/Queue.antt =====
-- A worker that is given a datagram, asks about it and is answered.
use colony_firewall_control.Prelude.{
  ◌+◌, ◌≡◌, ◌⊎◌, ◌↔◌, ◌≤◌, refl, true, false, none, some, List, [], ◌∷◌, ◌++◌, retain, err, ok,
  arith,
}
use colony_firewall_control.Connection
use colony_firewall_control.Connection.{Connection, outbound, inbound, with_process}
use colony_firewall_control.Process
use colony_firewall_control.Process.{Process}
use colony_firewall_control.Packet.{Fault, parse, parse_ipv4, index, slice_from, finalize, ports}
use colony_firewall_control.Rule.{allow}
use colony_firewall_control.Rule.Order.{sort_deterministic, sort}
use colony_firewall_control.Rule.Lookup
use colony_firewall_control.Rule.Lookup.{lookup, walk}
use colony_firewall_control.Verdict.{user_prompt}
use colony_firewall_control.Config.{policy, balanced}
use colony_firewall_control.Engine
use colony_firewall_control.Engine.{
  Engine, evaluate, peek, decide, credit, fallback_verdict, inbound_default, sorted,
}
use colony_firewall_control.Stats
use colony_firewall_control.Nfqueue.{drop_it, nfq_verdict_for}
use colony_firewall_control.Nfqueue.Pipeline
use colony_firewall_control.Nfqueue.Pipeline.{
  HostCache, ProcessResolver, PacketMeta, PipelineDeps, owner_of, is_own, attribute, with_owner,
  with_cached_host, conclude, unanswered, judge, handle_packet,
}
use colony_firewall_control.Nfqueue.Pipeline.Permitted.{lets_pass, Refused, ByRule, Unruled}
use colony_firewall_control.Nfqueue.Pipeline.Gate.{
  Own, handle_packet-inbound, handle_packet-outbound,
}
use colony_firewall_control.Nfqueue.Worker.{
  Worker, Message, ParkedPacket, PromptVerdict, Surroundings, started, prompt_session_seed,
  close_verdict_channel, release, unchosen,
}
use colony_firewall_control.Nfqueue.Worker.Counted.{answers, settled}
use colony_firewall_control.Nfqueue.Worker.Invariant.{IsWellFormed}
use colony_firewall_control.Nfqueue.Worker.Steps.{accounted}
use colony_firewall_control.Nfqueue.Worker.Events.{
  Event, arrived, answered, arrivals, run, started-IsWellFormed, run-IsWellFormed, hung_up-answers,
}
use colony_firewall_control.Nfqueue.Worker.Released.{refuses_now, release-permitted}
use colony_firewall_control.Nfqueue.Worker.Loop.{
  Received, got, would_block, interrupted, failed, timed_out, Turn, running, gave_up, turn,
  run_loop, max_consecutive_recv_errors,
}
use colony_firewall_control.Nfqueue.Worker.Loop.Turns.{failures, run_loop-gave_up}
use colony_firewall_control.Nfqueue.Worker.Loop.Kept.{receipts, run_loop-accounted}
use colony_firewall_control.Scenarios.Packets.{stamp}
use colony_firewall_control.Scenarios.Refusals.{datagram, query, rejecter, takes_all}

abbrev engine : Engine
engine = Engine.new [] (policy balanced)

abbrev dns : HostCache
dns = record { is_self = λ pid. false; cached_host = λ ip. none }

abbrev resolver : ProcessResolver
resolver = record {
  socket_owner = λ protocol direction src_ip src_port dst_ip dst_port uid. none;
  resolve = λ owner. Process.unknown owner.pid;
}

abbrev deps : PipelineDeps
deps = record { engine = engine; paused = true; dns = dns; resolver = resolver }

abbrev arriving : PacketMeta
arriving = record { uid = none; gid = none; direction = inbound; loopback = false }

abbrev leaving : PacketMeta
leaving = record { uid = some 1000; gid = none; direction = outbound; loopback = false }

handle_packet-inbound_example :
    let (_, outcome) = handle_packet deps arriving stamp 0 datagram in
    Refused outcome ⊎ ByRule engine 0 outcome
unfolding inbound_default Engine.new policy
handle_packet-inbound_example = handle_packet-inbound deps arriving stamp 0 datagram refl (λ h. cc)

passes : lets_pass (handle_packet deps leaving stamp 0 datagram).1 ≡ true
unfolding handle_packet parse parse_ipv4 index slice_from finalize ports judge is_own owner_of
    attribute evaluate peek decide credit fallback_verdict lookup walk retain Lookup.conclude
    conclude unanswered with_owner with_cached_host Connection.new Engine.new sorted
    sort_deterministic sort
passes = refl

handle_packet-outbound_example :
    let (_, outcome) = handle_packet deps leaving stamp 0 datagram in
    ((c : Connection) × (parse stamp datagram outbound ≡ ok c) × Own deps leaving c)
    ⊎ (((e : Fault) × (parse stamp datagram outbound ≡ err e))
        × ((fallback_verdict engine).action ≡ allow))
    ⊎ ByRule engine 0 outcome
    ⊎ (Unruled engine 0 outcome × ((leaving.loopback ≡ true) ⊎ (deps.paused ≡ true)))
handle_packet-outbound_example = handle_packet-outbound deps leaving stamp 0 datagram refl passes

abbrev surroundings : Surroundings
surroundings = record {
  stamp = stamp;
  now = 0;
  instant = 0;
  kernel = takes_all;
  takes = true;
  uuid = 99;
  random = 12;
  is_root_sealed = λ path. false;
  dns = dns;
  resolver = resolver;
}

abbrev message : Message
message = record { id = 1; payload = datagram; uid = some 1000; gid = none; hook = 3; outdev = 2 }

abbrev worker : Worker
worker = started 1 engine rejecter Stats.new 7

abbrev answer : PromptVerdict
answer = record { prompt_id = 7; verdict = record { action = allow; source = user_prompt } }

abbrev events : List Event
events = arrived surroundings message ∷ answered surroundings answer ∷ []

run-IsWellFormed_example : IsWellFormed (run events worker)
unfolding started prompt_session_seed
run-IsWellFormed_example =
    run-IsWellFormed events worker (started-IsWellFormed 1 engine rejecter Stats.new 7)
      (omega arith)

hung_up-answers_example :
    let w = close_verdict_channel surroundings (run events worker) in
    (w.waiters ≡ []) × (answers 1 w.verdicts ≡ arrivals 1 events)
hung_up-answers_example =
    hung_up-answers 1 engine rejecter Stats.new 7 1 events surroundings (omega arith)

abbrev parked : ParkedPacket
parked = record { message = message; connection = query; process = Process.unknown 0 }

release-permitted_example :
    let v = (settled surroundings answer.verdict parked worker).verdict in
    ((release surroundings answer.verdict parked worker).verdicts
      ≡ worker.verdicts ++ ((1, nfq_verdict_for v.action) ∷ []))
    × ((nfq_verdict_for v.action ≡ drop_it)
        ⊎ ((allow ≡ allow) × (refuses_now (peek worker.engine query (Process.unknown 0) 0) ≡ false))
        ⊎ ((unchosen user_prompt ≡ true)
            × ByRule worker.engine 0 (Pipeline.deliver query (Process.unknown 0) v)))
release-permitted_example = release-permitted surroundings answer.verdict parked worker

-- A turn that receives, with nothing from the router.
abbrev turn_with : Received → Turn
turn_with received = record {
  stop = false;
  surroundings = surroundings;
  drained = [];
  closed = false;
  received = received;
  waited = timed_out;
}

abbrev dry_turns : List Turn
dry_turns = turn_with failed ∷ turn_with would_block ∷ turn_with failed ∷ []

run_loop-gave_up_example :
    ((run_loop dry_turns 98 worker).1 ≡ gave_up)
    ↔ (max_consecutive_recv_errors ≤ 98 + failures dry_turns)
run_loop-gave_up_example =
    run_loop-gave_up dry_turns 98 worker ((refl, refl), ((refl, refl), ((refl, refl), tt)))
      (omega arith)

abbrev turns : List Turn
turns = turn_with (got message) ∷ turn_with interrupted ∷ turn_with would_block ∷ []

runs_on : (run_loop turns 0 worker).1 ≡ running
unfolding run_loop turn
runs_on = refl

run_loop-accounted_example :
    let (w, _) = run_loop turns 0 worker in
    IsWellFormed w × (accounted 1 w ≡ accounted 1 worker + receipts 1 turns)
unfolding started prompt_session_seed
run_loop-accounted_example =
    run_loop-accounted 1 turns 0 worker (started-IsWellFormed 1 engine rejecter Stats.new 7)
      (omega arith) runs_on
