-- ===== src/Nfqueue/Worker/Invariant.antt =====
-- The state of the worker is well formed before and after each of its operations.
use colony_firewall_control.Prelude.{
  ℕ, ◌≤◌, ◌<◌, ◌≡◌, refl, ap, sym, ◌∙◌, inl, inr, Bool, true, false, ◌&&◌, Option, none, some,
  is_some, if◌then◌else◌, length, All, Option-cases, Text, arith,
}
use colony_firewall_control.Prelude.Maps.{get, Unique}
use colony_firewall_control.Process.{Process, exe_is_known}
use colony_firewall_control.Nfqueue.Worker.{
  Worker, ParkedPacket, PendingPrompt, max_parked_prompts, max_packets_per_prompt,
}
use colony_firewall_control.Nfqueue.Worker.Keys.{
  FlowOrigin, exe, unattributed, FlowKey, for_flow, origin_of, flow_get, identified,
}
use colony_firewall_control.Nfqueue.Worker.Counted.{Keeps}

-- A packet is of the program that its key names, where it names one.
abbrev pub OfProgram : FlowOrigin → Process → Type 0
OfProgram (exe path sha256) p =
    (p.exe ≡ path) × (p.sha256 ≡ sha256) × (exe_is_known p ≡ true) × (is_some p.uid ≡ true)
OfProgram (unattributed uuid) p = Unit

-- A packet goes where its key says, and is of its user and its program.
pub record Belongs (flow : FlowKey) (packet : ParkedPacket) : Type 0 where
  pub dst_ip : packet.connection.dst_ip ≡ flow.dst_ip
  pub dst_port : packet.connection.dst_port ≡ flow.dst_port
  pub protocol : packet.connection.protocol ≡ flow.protocol
  pub uid : packet.process.uid ≡ flow.uid
  pub program : OfProgram flow.origin packet.process

-- A prompt of the table, with its number.
pub record IsSound (w : Worker) (id : ℕ) (pending : PendingPrompt) : Type 0 where
  pub found : flow_get pending.flow w.pending_flows ≡ some id
  pub some_packet : 0 < length pending.packets
  pub few_packets : length pending.packets ≤ max_packets_per_prompt
  pub earlier : id < w.next_prompt_id
  pub belongs : All (Belongs pending.flow) pending.packets

-- The flow of a number is a prompt's, and the prompt has that flow.
abbrev pub Waits : Worker → FlowKey → ℕ → Type 0
Waits w flow id =
    (pending : PendingPrompt) × (get id w.waiters ≡ some pending) × (pending.flow ≡ flow)

pub record IsWellFormed (w : Worker) : Type 0 where
  pub unique : Unique w.waiters
  pub capped : length w.waiters ≤ max_parked_prompts
  pub sound :
      (id : ℕ) (pending : PendingPrompt) → get id w.waiters ≡ some pending → IsSound w id pending
  pub waits : (flow : FlowKey) (id : ℕ) → flow_get flow w.pending_flows ≡ some id → Waits w flow id

IsSound-Keeps :
    (w w' : Worker) (id : ℕ) (pending : PendingPrompt)
    → w'.pending_flows ≡ w.pending_flows
    → w.next_prompt_id ≤ w'.next_prompt_id
    → IsSound w id pending
    → IsSound w' id pending
IsSound-Keeps w w' id pending same later s = record {
  found = ap (flow_get pending.flow) same ∙ s.found;
  some_packet = s.some_packet;
  few_packets = s.few_packets;
  earlier = omega (arith, s.earlier);
  belongs = s.belongs;
}

-- The numbers may run on while the table stays.
pub IsWellFormed-later :
    (w w' : Worker)
    → w'.waiters ≡ w.waiters
    → w'.pending_flows ≡ w.pending_flows
    → w.next_prompt_id ≤ w'.next_prompt_id
    → IsWellFormed w
    → IsWellFormed w'
IsWellFormed-later w w' waiters flows later f = record {
  unique = rw waiters f.unique;
  capped = rw waiters f.capped;
  sound = λ id pending e.
      IsSound-Keeps w w' id pending flows later
        (f.sound id pending (ap (get id) (sym waiters) ∙ e));
  waits = λ flow id e.
      let (pending, got, same) = f.waits flow id (ap (flow_get flow) (sym flows) ∙ e) in
      (pending, ap (get id) waiters ∙ got, same);
}

pub IsWellFormed-Keeps : (w w' : Worker) → Keeps w w' → IsWellFormed w → IsWellFormed w'
IsWellFormed-Keeps w w' k f =
    IsWellFormed-later w w' k.waiters k.pending_flows (omega (arith, k.next_prompt_id)) f

chosen-OfProgram :
    (p : Process) (h : Option Text) (uuid : ℕ) (b : Bool)
    → p.sha256 ≡ h
    → (b ≡ true → identified p ≡ true)
    → OfProgram (if b then exe p.exe h else unattributed uuid) p
chosen-OfProgram p h uuid true e known =
    let k = known refl in (refl, e, ground (arith, k), ground (arith, k))
chosen-OfProgram p h uuid false e known = tt

origin_of-none :
    (sealed : Text → Bool) (uuid : ℕ) (p : Process)
    → p.sha256 ≡ none
    → origin_of sealed uuid p
      ≡ (if identified p && sealed p.exe then exe p.exe none else unattributed uuid)
unfolding origin_of exe_is_known
origin_of-none sealed uuid p e = rw (origin_of, e) refl

origin_of-some :
    (sealed : Text → Bool) (uuid : ℕ) (p : Process) (h : Text)
    → p.sha256 ≡ some h
    → origin_of sealed uuid p ≡ (if identified p then exe p.exe (some h) else unattributed uuid)
unfolding origin_of exe_is_known
origin_of-some sealed uuid p h e = rw (origin_of, e) refl

origin_of-OfProgram :
    (sealed : Text → Bool) (uuid : ℕ) (p : Process) → OfProgram (origin_of sealed uuid p) p
origin_of-OfProgram sealed uuid p = elim (Option-cases p.sha256) [
  | inl e ↦
      rw (origin_of-none sealed uuid p e)
        (chosen-OfProgram p none uuid (identified p && sealed p.exe) e (λ h. ground (arith, h)))
  | inr (h, e) ↦
      rw (origin_of-some sealed uuid p h e)
        (chosen-OfProgram p (some h) uuid (identified p) e (λ k. k))
]

pub for_flow-Belongs :
    (sealed : Text → Bool) (uuid : ℕ) (packet : ParkedPacket)
    → Belongs (for_flow sealed uuid packet.connection packet.process) packet
unfolding for_flow
for_flow-Belongs sealed uuid packet = record {
  dst_ip = refl;
  dst_port = refl;
  protocol = refl;
  uid = refl;
  program = origin_of-OfProgram sealed uuid packet.process;
}

some_injective : (a b : ℕ) → some a ≡ some b → a ≡ b
some_injective a b h = ground (arith, h)

-- A flow has one prompt.
pub same_id :
    (w : Worker) (a b : ℕ) (p q : PendingPrompt)
    → IsWellFormed w
    → get a w.waiters ≡ some p
    → get b w.waiters ≡ some q
    → p.flow ≡ q.flow
    → a ≡ b
same_id w a b p q f ga gb same = some_injective a b (
    sym (f.sound a p ga).found
    ∙ ap (λ (k : FlowKey). flow_get k w.pending_flows) same
    ∙ (f.sound b q gb).found)
