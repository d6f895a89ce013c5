-- ===== src/Nfqueue/Worker/Steps.antt =====
-- What each operation of the worker does to the packets that wait and to those that are answered.
use colony_firewall_control.Prelude.{
  ℕ, ◌+◌, ◌^◌, ◌≤◌, ◌<◌, ◌≡◌, refl, ap, ◌∙◌, inl, inr, Option, none, some, List, [], ◌∷◌, ◌++◌,
  ◌==◌, leb, length, length-append, All, Bool-cases, Option-cases, arith,
}
use colony_firewall_control.Prelude.Maps.{get, put}
use colony_firewall_control.Connection.{Connection}
use colony_firewall_control.Process.{Process}
use colony_firewall_control.Verdict.{Verdict}
use colony_firewall_control.Nfqueue.{nfq_verdict_for}
use colony_firewall_control.Nfqueue.Pipeline
use colony_firewall_control.Nfqueue.Pipeline.{PacketOutcome, PipelineDeps, handle_packet}
use colony_firewall_control.Nfqueue.Worker.{
  Worker, Message, ParkedPacket, PendingPrompt, ObservedConnection, PromptVerdict, Surroundings,
  max_parked_prompts, max_packets_per_prompt, send_verdict, deliver, deliver_fallback, release_all,
  resolve_prompt,
}
use colony_firewall_control.Nfqueue.Worker.Parking.{
  ride, open_prompt, park_for_prompt, dispatch, handle_message, next_id, meta_of,
}
use colony_firewall_control.Nfqueue.Worker.Keys.{FlowKey, for_flow, flow_get, flow_put}
use colony_firewall_control.Nfqueue.Worker.Counted.{
  bit, answers, parked, parked_in, answers-append, parked_in-append, parked-put_new, parked-put_old,
  parked-remove, deliver-verdicts, deliver-Keeps, release_all-Keeps, release_all-answers,
}
use colony_firewall_control.Nfqueue.Worker.Invariant.{
  Belongs, IsWellFormed, IsWellFormed-later, IsWellFormed-Keeps, for_flow-Belongs,
}
use colony_firewall_control.Nfqueue.Worker.Table.{
  without, without-IsWellFormed, with_prompt-IsWellFormed,
}
use colony_firewall_control.Nfqueue.Worker.Opened.{opened, unused, opened-IsWellFormed}

-- How often message `n` was answered or waits.
abbrev pub accounted : ℕ → Worker → ℕ
accounted n w = answers n w.verdicts + parked n w.waiters

-- What an operation does that takes `came n` more of the messages `n` in.
pub record Progress (came : ℕ → ℕ) (w w' : Worker) : Type 0 where
  pub formed : IsWellFormed w'
  pub accounts : (n : ℕ) → accounted n w' ≡ accounted n w + came n
  pub near : w'.next_prompt_id ≤ w.next_prompt_id + 1

-- One message.
abbrev pub one : Message → ℕ → ℕ
one msg n = bit (msg.id == n)

pub deliver-Progress :
    (s : Surroundings) (msg : Message) (o : ObservedConnection) (w : Worker)
    → IsWellFormed w
    → Progress (one msg) w (deliver s msg o w)
deliver-Progress s msg o w f =
    let kept = deliver-Keeps s msg o w in
    record {
      formed = IsWellFormed-Keeps w (deliver s msg o w) kept f;
      accounts = λ n.
          (let told =
              ap (answers n) (deliver-verdicts s msg o w)
              ∙ answers-append n msg.id (nfq_verdict_for o.verdict.action) w.verdicts in
            omega (arith, told, ap (parked n) kept.waiters));
      near = omega (arith, kept.next_prompt_id);
    }

pub resolve_prompt-Progress :
    (s : Surroundings) (pv : PromptVerdict) (w : Worker)
    → IsWellFormed w
    → Progress (λ n. 0) w (resolve_prompt s pv w)
unfolding resolve_prompt
resolve_prompt-Progress s pv w f = elim (Option-cases (get pv.prompt_id w.waiters)) [
  | inl e ↦
      rw (resolve_prompt, e)
        (record { formed = f; accounts = λ n. omega arith; near = omega arith })
  | inr (pending, e) ↦
      let base = without pv.prompt_id pending w in
      let after = release_all s pv.verdict pending.packets base in
      let kept = release_all-Keeps s pv.verdict pending.packets base in
      rw (resolve_prompt, e)
        (record {
          formed =
              IsWellFormed-Keeps base after kept (without-IsWellFormed w f pv.prompt_id pending e);
          accounts = λ n. omega (
            arith,
            release_all-answers s pv.verdict n pending.packets base,
            ap (parked n) kept.waiters,
            parked-remove n pv.prompt_id pending w.waiters f.unique e,
          );
          near = omega (arith, kept.next_prompt_id);
        })
]

All-snoc :
    (P : ParkedPacket → Type 0) (ps : List ParkedPacket) (p : ParkedPacket)
    → All P ps
    → P p
    → All P (ps ++ (p ∷ []))
All-snoc P [] p all h = (h, tt)
All-snoc P (q ∷ ps) p (first, all) h = (first, All-snoc P ps p all h)

module _ (s : Surroundings) (msg : Message) (c : Connection) (p : Process) (fallback : Verdict)
    (undecided : Option ℕ) (w : Worker) (f : IsWellFormed w) where
  abbrev packet : ParkedPacket
  packet = record { message = msg; connection = c; process = p }

  deliver_fallback-Progress :
      (w' : Worker)
      → w'.waiters ≡ w.waiters
      → w'.pending_flows ≡ w.pending_flows
      → w'.verdicts ≡ w.verdicts
      → w.next_prompt_id ≤ w'.next_prompt_id
      → w'.next_prompt_id ≤ w.next_prompt_id + 1
      → Progress (one msg) w (deliver_fallback s msg c p fallback undecided w')
  unfolding deliver_fallback
  deliver_fallback-Progress w' waiters flows told low high =
      let o : ObservedConnection = record {
        connection = c;
        process = p;
        verdict = fallback;
        undecided = undecided;
      } in
      let kept = deliver-Keeps s msg o w' in
      let went = deliver-Progress s msg o w' (IsWellFormed-later w w' waiters flows low f) in
      record {
        formed = went.formed;
        accounts = λ n. omega (arith, went.accounts n, ap (answers n) told, ap (parked n) waiters);
        near = omega (arith, kept.next_prompt_id, high);
      }

  ride-Progress :
      (id : ℕ) (pending : PendingPrompt)
      → get id w.waiters ≡ some pending
      → Belongs pending.flow packet
      → Progress (one msg) w (ride s id pending msg c p fallback undecided w)
  unfolding ride
  ride-Progress id pending got belongs =
      elim (Bool-cases (leb max_packets_per_prompt (length pending.packets))) [
        | inl e ↦ rw e (deliver_fallback-Progress w refl refl refl (omega arith) (omega arith))
        | inr e ↦
            let sound = f.sound id pending got in
            let grown : PendingPrompt = record pending {
              packets = pending.packets ++ (packet ∷ []);
            } in
            let longer = length-append pending.packets (packet ∷ []) in
            rw e (record {
              formed =
                  with_prompt-IsWellFormed w f id pending got grown refl
                    (ground (arith, e, longer), omega (arith, longer))
                    (All-snoc (Belongs pending.flow) pending.packets packet sound.belongs belongs);
              accounts = λ n. omega (
                arith,
                parked-put_old n id grown pending w.waiters got,
                parked_in-append n packet pending.packets,
              );
              near = omega arith;
            })
      ]

  -- What `open_prompt` makes of the worker where the router takes the request.
  abbrev new_prompt : FlowKey → PendingPrompt
  new_prompt flow = record { flow = flow; packets = packet ∷ []; fallback = fallback }

  abbrev taken_up : FlowKey → Worker
  taken_up flow = record w {
    next_prompt_id = next_id s.random w.next_prompt_id;
    requests =
        w.requests
        ++ (record {
          prompt_id = w.next_prompt_id;
          connection = c;
          process = p;
          undecided = undecided;
        }
            ∷ []);
    pending_flows = flow_put flow w.next_prompt_id w.pending_flows;
    waiters = put w.next_prompt_id (new_prompt flow) w.waiters;
  }

  taken_up-Progress :
      (flow : FlowKey)
      → flow_get flow w.pending_flows ≡ none
      → Belongs flow packet
      → length w.waiters < max_parked_prompts
      → next_id s.random w.next_prompt_id ≡ w.next_prompt_id + 1
      → Progress (one msg) w (taken_up flow)
  unfolding parked_in
  taken_up-Progress flow absent belongs room after =
      let next = next_id s.random w.next_prompt_id in
      let later : w.next_prompt_id < next = omega (arith, after) in
      let formed =
        opened-IsWellFormed w f (new_prompt flow) absent room (omega arith, omega arith)
          (belongs, tt) next later in
      record {
        formed =
            IsWellFormed-later
              (opened w f (new_prompt flow) absent room (omega arith, omega arith) (belongs, tt)
                next later)
              (taken_up flow) refl refl (omega arith) formed;
        accounts = λ n. omega (
          arith,
          parked-put_new n w.next_prompt_id (new_prompt flow) w.waiters (
              unused w f (new_prompt flow) absent room (omega arith, omega arith) (belongs, tt) next
                later),
        );
        near = omega (arith, after);
      }

  open_prompt-Progress :
      (flow : FlowKey)
      → flow_get flow w.pending_flows ≡ none
      → Belongs flow packet
      → w.next_prompt_id + 1 < 2 ^ 64
      → Progress (one msg) w (open_prompt s flow msg c p fallback undecided w)
  unfolding open_prompt
  open_prompt-Progress flow absent belongs below =
      let after : next_id s.random w.next_prompt_id ≡ w.next_prompt_id + 1 =
        ground (arith, below) in
      elim (Bool-cases (leb max_parked_prompts (length w.waiters))) [
        | inl full ↦
            rw full (deliver_fallback-Progress w refl refl refl (omega arith) (omega arith))
        | inr room ↦ elim (Bool-cases s.takes) [
          | inr refuses ↦
              rw (room, refuses)
                (deliver_fallback-Progress
                  (record w { next_prompt_id = next_id s.random w.next_prompt_id }) refl refl refl
                  (omega (arith, after)) (omega (arith, after)))
          | inl takes ↦
              rw (room, takes) (taken_up-Progress flow absent belongs (ground (arith, room)) after)
        ]
      ]

  park_for_prompt-Progress :
      w.next_prompt_id + 1 < 2 ^ 64
      → Progress (one msg) w (park_for_prompt s msg c p fallback undecided w)
  unfolding park_for_prompt
  park_for_prompt-Progress below =
      let flow = for_flow s.is_root_sealed s.uuid c p in
      let belongs = for_flow-Belongs s.is_root_sealed s.uuid packet in
      elim (Option-cases (flow_get flow w.pending_flows)) [
        | inl e ↦ rw (park_for_prompt, e) (open_prompt-Progress flow e belongs below)
        | inr (id, e) ↦
            let (pending, got, same) = f.waits flow id e in
            rw (park_for_prompt, e, got) (ride-Progress id pending got (rw same belongs))
      ]

dispatch-Progress :
    (s : Surroundings) (msg : Message) (outcome : PacketOutcome) (w : Worker)
    → IsWellFormed w
    → w.next_prompt_id + 1 < 2 ^ 64
    → Progress (one msg) w (dispatch s msg outcome w)
unfolding dispatch send_verdict
dispatch-Progress s msg (Pipeline.silent v) w f below = record {
  formed = IsWellFormed-later w (send_verdict msg v w) refl refl (omega arith) f;
  accounts = λ n. omega (arith, answers-append n msg.id v w.verdicts);
  near = omega arith;
}
dispatch-Progress s msg (Pipeline.deliver c p v) w f below =
    deliver-Progress s msg (record { connection = c; process = p; verdict = v; undecided = none }) w
      f
dispatch-Progress s msg (Pipeline.prompt c p fallback undecided) w f below =
    park_for_prompt-Progress s msg c p fallback undecided w f below

pub handle_message-Progress :
    (s : Surroundings) (msg : Message) (w : Worker)
    → IsWellFormed w
    → w.next_prompt_id + 1 < 2 ^ 64
    → Progress (one msg) w (handle_message s msg w)
unfolding handle_message
handle_message-Progress s msg w f below =
    let deps : PipelineDeps = record {
      engine = w.engine;
      paused = w.stats.paused;
      dns = s.dns;
      resolver = s.resolver;
    } in
    let (engine, outcome) = handle_packet deps (meta_of w msg) s.stamp s.now msg.payload in
    let judged : Worker = record w { engine = engine } in
    let went =
      dispatch-Progress s msg outcome judged (IsWellFormed-later w judged refl refl (omega arith) f)
        below in
    record { formed = went.formed; accounts = went.accounts; near = went.near }
