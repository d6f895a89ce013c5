-- ===== src/Nfqueue/Worker/Opened.antt =====
-- The table of prompts when a prompt is added.
use colony_firewall_control.Prelude.{
  ℕ, ◌≤◌, ◌<◌, ◌≡◌, ap, sym, ◌∙◌, inl, inr, none, some, ◌==◌, length, All, Bool-cases, Option-cases,
  arith,
}
use colony_firewall_control.Prelude.Maps.{get, put, get-put, Unique-put, length-put}
use colony_firewall_control.Nfqueue.Worker.{
  Worker, PendingPrompt, max_parked_prompts, max_packets_per_prompt,
}
use colony_firewall_control.Nfqueue.Worker.Keys.{FlowKey, flow_eq, flow_get, flow_put}
use colony_firewall_control.Nfqueue.Worker.Keys.Laws.{eq_of_flow_eq, flow_eq_refl, flow_get-put}
use colony_firewall_control.Nfqueue.Worker.Invariant.{Belongs, IsSound, Waits, IsWellFormed}
use colony_firewall_control.Nfqueue.Worker.Table.{some_injective, IsSound-at}

-- A new prompt for a flow that had none.
module _ (w : Worker) (f : IsWellFormed w) (fresh : PendingPrompt)
    (absent : flow_get fresh.flow w.pending_flows ≡ none)
    (room : length w.waiters < max_parked_prompts)
    (filled : (length fresh.packets ≤ max_packets_per_prompt) × (0 < length fresh.packets))
    (members : All (Belongs fresh.flow) fresh.packets) (next : ℕ)
    (later : w.next_prompt_id < next) where
  abbrev pub opened : Worker
  opened = record w {
    waiters = put w.next_prompt_id fresh w.waiters;
    pending_flows = flow_put fresh.flow w.next_prompt_id w.pending_flows;
    next_prompt_id = next;
  }

  pub unused : get w.next_prompt_id w.waiters ≡ none
  unused = elim (Option-cases (get w.next_prompt_id w.waiters)) [
    | inl e ↦ e
    | inr (p, e) ↦ absurd (omega (arith, (f.sound w.next_prompt_id p e).earlier))
  ]

  found_still :
      (flow : FlowKey) (j : ℕ)
      → flow_get flow w.pending_flows ≡ some j
      → flow_get flow (flow_put fresh.flow w.next_prompt_id w.pending_flows) ≡ some j
  found_still flow j found = elim (Bool-cases (flow_eq fresh.flow flow)) [
    | inr other ↦
        ground (arith, flow_get-put fresh.flow flow w.next_prompt_id w.pending_flows, found, other)
    | inl e ↦
        let same =
          ap (λ (k : FlowKey). flow_get k w.pending_flows) (eq_of_flow_eq fresh.flow flow e) in
        absurd (ground (arith, sym absent ∙ same ∙ found))
  ]

  opened-IsSound :
      (j : ℕ) (p : PendingPrompt)
      → get j (put w.next_prompt_id fresh w.waiters) ≡ some p
      → IsSound opened j p
  opened-IsSound j p h = elim (Bool-cases (w.next_prompt_id == j)) [
    | inl e ↦
        let put_there : fresh ≡ p =
          some_injective fresh p
            (ground (arith, get-put w.next_prompt_id j fresh w.waiters, h, e)) in
        IsSound-at opened w.next_prompt_id j fresh p e put_there (record {
          found = ground (
            arith,
            flow_get-put fresh.flow fresh.flow w.next_prompt_id w.pending_flows,
            flow_eq_refl fresh.flow,
          );
          some_packet = filled.1;
          few_packets = filled.0;
          earlier = later;
          belongs = members;
        })
    | inr e ↦
        let s = f.sound j p (ground (arith, get-put w.next_prompt_id j fresh w.waiters, h, e)) in
        record {
          found = found_still p.flow j s.found;
          some_packet = s.some_packet;
          few_packets = s.few_packets;
          earlier = omega (arith, s.earlier, later);
          belongs = s.belongs;
        }
  ]

  opened-Waits :
      (flow : FlowKey) (j : ℕ)
      → flow_get flow (flow_put fresh.flow w.next_prompt_id w.pending_flows) ≡ some j
      → Waits opened flow j
  opened-Waits flow j h = elim (Bool-cases (flow_eq fresh.flow flow)) [
    | inl e ↦
        let there : w.next_prompt_id ≡ j =
          ground (arith, flow_get-put fresh.flow flow w.next_prompt_id w.pending_flows, h, e) in
        (
          fresh,
          ground (arith, get-put w.next_prompt_id j fresh w.waiters, there),
          eq_of_flow_eq fresh.flow flow e,
        )
    | inr e ↦
        let (p, there, flows) =
          f.waits flow j
            (ground (arith, flow_get-put fresh.flow flow w.next_prompt_id w.pending_flows, h, e)) in
        (p, ground (arith, get-put w.next_prompt_id j fresh w.waiters, there, unused), flows)
  ]

  pub opened-IsWellFormed : IsWellFormed opened
  opened-IsWellFormed = record {
    unique = Unique-put w.next_prompt_id fresh w.waiters f.unique;
    capped = omega (arith, length-put w.next_prompt_id fresh w.waiters unused, room);
    sound = opened-IsSound;
    waits = opened-Waits;
  }
