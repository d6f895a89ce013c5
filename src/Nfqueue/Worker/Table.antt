-- ===== src/Nfqueue/Worker/Table.antt =====
-- The table of prompts when a prompt is taken out, or grows.
use mathlib.Core.Option.{get_or}
use colony_firewall_control.Prelude.{
  ℕ, ◌≤◌, ◌<◌, ◌≡◌, ap, sym, ◌∙◌, inl, inr, true, false, Option, some, ◌==◌, length, All,
  Bool-cases, arith,
}
use colony_firewall_control.Prelude.Maps.{
  Map, get, put, remove, get-put, get-remove, Unique-put, Unique-remove, length-put_old,
  length-remove,
}
use colony_firewall_control.Nfqueue.Worker.{Worker, PendingPrompt, max_packets_per_prompt}
use colony_firewall_control.Nfqueue.Worker.Keys.{FlowKey, FlowMap, flow_eq, flow_get, flow_remove}
use colony_firewall_control.Nfqueue.Worker.Keys.Laws.{eq_of_flow_eq, flow_eq_refl, flow_get-remove}
use colony_firewall_control.Nfqueue.Worker.Invariant.{
  Belongs, IsSound, Waits, IsWellFormed, same_id,
}

get_removed :
    (id j : ℕ) (p : PendingPrompt) (m : Map PendingPrompt)
    → get j (remove id m) ≡ some p
    → ((id == j) ≡ false) × (get j m ≡ some p)
get_removed id j p m h = ground (arith, get-remove id j m, h)

flow_removed :
    (f g : FlowKey) (j : ℕ) (m : FlowMap)
    → flow_get g (flow_remove f m) ≡ some j
    → (flow_eq f g ≡ false) × (flow_get g m ≡ some j)
flow_removed f g j m h = ground (arith, flow_get-remove f g m, h)

flow_kept :
    (f g : FlowKey) (j : ℕ) (m : FlowMap)
    → flow_eq f g ≡ false
    → flow_get g m ≡ some j
    → flow_get g (flow_remove f m) ≡ some j
flow_kept f g j m e h = ground (arith, flow_get-remove f g m, e, h)

pub some_injective : (p q : PendingPrompt) → some p ≡ some q → p ≡ q
some_injective p q e = ap (λ (o : Option PendingPrompt). get_or o p) e

pub IsSound-at :
    (w : Worker) (i j : ℕ) (p q : PendingPrompt)
    → (i == j) ≡ true
    → p ≡ q
    → IsSound w i p
    → IsSound w j q
IsSound-at w i j p q e same s = let there : i ≡ j = ground (arith, e) in rw (← there, ← same) s

-- The table without a prompt.
abbrev pub without : ℕ → PendingPrompt → Worker → Worker
without id pending w = record w {
  waiters = remove id w.waiters;
  pending_flows = flow_remove pending.flow w.pending_flows;
}

module _ (w : Worker) (f : IsWellFormed w) (id : ℕ) (pending : PendingPrompt)
    (got : get id w.waiters ≡ some pending) where
  different_flow :
      (j : ℕ) (p : PendingPrompt)
      → get j w.waiters ≡ some p
      → (id == j) ≡ false
      → flow_eq pending.flow p.flow ≡ false
  different_flow j p found apart = elim (Bool-cases (flow_eq pending.flow p.flow)) [
    | inr other ↦ other
    | inl same ↦
        let together =
          same_id w id j pending p f got found (eq_of_flow_eq pending.flow p.flow same) in
        absurd (ground (arith, together, apart))
  ]

  without-IsSound :
      (j : ℕ) (p : PendingPrompt)
      → get j (remove id w.waiters) ≡ some p
      → IsSound (without id pending w) j p
  without-IsSound j p h =
      let (apart, found) = get_removed id j p w.waiters h in
      let s = f.sound j p found in
      record {
        found =
            flow_kept pending.flow p.flow j w.pending_flows (different_flow j p found apart)
              s.found;
        some_packet = s.some_packet;
        few_packets = s.few_packets;
        earlier = s.earlier;
        belongs = s.belongs;
      }

  same_prompt : (j : ℕ) (p : PendingPrompt) → get j w.waiters ≡ some p → id ≡ j → pending ≡ p
  same_prompt j p there e =
      some_injective pending p (sym got ∙ ap (λ (k : ℕ). get k w.waiters) e ∙ there)

  still_there :
      (flow : FlowKey) (j : ℕ) (p : PendingPrompt)
      → flow_eq pending.flow flow ≡ false
      → get j w.waiters ≡ some p
      → p.flow ≡ flow
      → get j (remove id w.waiters) ≡ some p
  still_there flow j p apart there same = elim (Bool-cases (id == j)) [
    | inr other ↦ ground (arith, get-remove id j w.waiters, there, other)
    | inl e ↦
        let prompt = same_prompt j p there (ground (arith, e)) in
        let met : flow_eq pending.flow flow ≡ true =
          ap (flow_eq pending.flow) (sym same ∙ ap (λ (q : PendingPrompt). q.flow) (sym prompt))
          ∙ flow_eq_refl pending.flow in
        absurd (ground (arith, met, apart))
  ]

  without-Waits :
      (flow : FlowKey) (j : ℕ)
      → flow_get flow (flow_remove pending.flow w.pending_flows) ≡ some j
      → Waits (without id pending w) flow j
  without-Waits flow j h =
      let (apart, found) = flow_removed pending.flow flow j w.pending_flows h in
      let (p, there, same) = f.waits flow j found in
      (p, still_there flow j p apart there same, same)

  pub without-IsWellFormed : IsWellFormed (without id pending w)
  without-IsWellFormed = record {
    unique = Unique-remove id w.waiters f.unique;
    capped = omega (arith, length-remove id pending w.waiters f.unique got, f.capped);
    sound = without-IsSound;
    waits = without-Waits;
  }

  -- A prompt of the same flow in its place.
  abbrev pub with_prompt : PendingPrompt → Worker
  with_prompt grown = record w { waiters = put id grown w.waiters }

  module _ (grown : PendingPrompt) (same : grown.flow ≡ pending.flow)
      (fits : (length grown.packets ≤ max_packets_per_prompt) × (0 < length grown.packets))
      (members : All (Belongs grown.flow) grown.packets) where
    with_prompt-IsSound :
        (j : ℕ) (p : PendingPrompt)
        → get j (put id grown w.waiters) ≡ some p
        → IsSound (with_prompt grown) j p
    with_prompt-IsSound j p h = elim (Bool-cases (id == j)) [
      | inl e ↦
          let s = f.sound id pending got in
          let put_there : grown ≡ p =
            some_injective grown p (ground (arith, get-put id j grown w.waiters, h, e)) in
          IsSound-at (with_prompt grown) id j grown p e put_there (record {
            found = ap (λ (k : FlowKey). flow_get k w.pending_flows) same ∙ s.found;
            some_packet = fits.1;
            few_packets = fits.0;
            earlier = s.earlier;
            belongs = members;
          })
      | inr e ↦
          let s = f.sound j p (ground (arith, get-put id j grown w.waiters, h, e)) in
          record {
            found = s.found;
            some_packet = s.some_packet;
            few_packets = s.few_packets;
            earlier = s.earlier;
            belongs = s.belongs;
          }
    ]

    with_prompt-Waits :
        (flow : FlowKey) (j : ℕ)
        → flow_get flow w.pending_flows ≡ some j
        → Waits (with_prompt grown) flow j
    with_prompt-Waits flow j h =
        let (p, there, flows) = f.waits flow j h in
        elim (Bool-cases (id == j)) [
          | inl e ↦ (
            grown,
            ground (arith, get-put id j grown w.waiters, e),
            same
                ∙ ap (λ (q : PendingPrompt). q.flow) (same_prompt j p there (ground (arith, e)))
                ∙ flows,
          )
          | inr e ↦ (p, ground (arith, get-put id j grown w.waiters, there, e), flows)
        ]

    pub with_prompt-IsWellFormed : IsWellFormed (with_prompt grown)
    with_prompt-IsWellFormed = record {
      unique = Unique-put id grown w.waiters f.unique;
      capped = omega (arith, length-put_old id grown pending w.waiters got, f.capped);
      sound = with_prompt-IsSound;
      waits = with_prompt-Waits;
    }
