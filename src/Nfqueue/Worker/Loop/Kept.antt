-- ===== src/Nfqueue/Worker/Loop/Kept.antt =====
-- The loop of the worker loses no packet.
use colony_firewall_control.Prelude.{
  ℕ, ◌+◌, ◌^◌, ◌<◌, ◌≡◌, inl, inr, refl, ap, sym, ◌∙◌, Bool, true, false, not, List, [], ◌∷◌,
  if◌then◌else◌, length, Bool-cases, arith,
}
use colony_firewall_control.Nfqueue.Worker.{Worker, PromptVerdict, Surroundings, resolve_prompt}
use colony_firewall_control.Nfqueue.Worker.Invariant.{IsWellFormed}
use colony_firewall_control.Nfqueue.Worker.Steps.{accounted, Progress, one, handle_message-Progress}
use colony_firewall_control.Nfqueue.Worker.Events.{
  IsSteady, Progress-of_IsSteady, hang_up-IsSteady, resolve_prompt-IsSteady,
}
use colony_firewall_control.Nfqueue.Worker.Loop.{
  Received, got, would_block, interrupted, failed, Waited, verdict, timed_out, disconnected, Turn,
  drain, drain_verdicts, waited_for, idle_wait, Ended, running, stopped, gave_up, after, turn,
  proceed, run_loop,
}

-- How often a turn brings message `n`.
abbrev pub received : ℕ → Received → ℕ
received n (got msg) = one msg n
received n would_block = 0
received n interrupted = 0
received n failed = 0

abbrev pub receipts : ℕ → List Turn → ℕ
receipts n [] = 0
receipts n (t ∷ turns) = received n t.received + receipts n turns

IsSteady-refl : (w : Worker) → IsWellFormed w → IsSteady w w
IsSteady-refl w f = record { formed = f; accounts = λ n. refl; near = omega arith }

IsSteady-trans : (a b c : Worker) → IsSteady a b → IsSteady b c → IsSteady a c
IsSteady-trans a b c h k = record {
  formed = k.formed;
  accounts = λ n. k.accounts n ∙ h.accounts n;
  near = omega (arith, h.near, k.near);
}

drain-IsSteady :
    (s : Surroundings) (pvs : List PromptVerdict) (closed : Bool) (w : Worker)
    → IsWellFormed w
    → IsSteady w (drain s pvs closed w)
unfolding drain
drain-IsSteady s [] false w f = IsSteady-refl w f
drain-IsSteady s [] true w f = (hang_up-IsSteady s w f).0
drain-IsSteady s (pv ∷ pvs) closed w f =
    let next = resolve_prompt s pv w in
    let first = resolve_prompt-IsSteady s pv w f in
    IsSteady-trans w next (drain s pvs closed next) first
      (drain-IsSteady s pvs closed next first.formed)

if_open-IsSteady :
    (channel_open : Bool) (w w' : Worker)
    → IsWellFormed w
    → IsSteady w w'
    → IsSteady w (if not channel_open then w else w')
if_open-IsSteady true w w' f h = h
if_open-IsSteady false w w' f h = IsSteady-refl w f

drain_verdicts-IsSteady : (t : Turn) (w : Worker) → IsWellFormed w → IsSteady w (drain_verdicts t w)
unfolding drain_verdicts
drain_verdicts-IsSteady t w f =
    if_open-IsSteady w.verdict_channel_open w (drain t.surroundings t.drained t.closed w) f
      (drain-IsSteady t.surroundings t.drained t.closed w f)

waited_for-IsSteady :
    (s : Surroundings) (waited : Waited) (w : Worker)
    → IsWellFormed w
    → IsSteady w (waited_for s waited w)
waited_for-IsSteady s (verdict pv) w f = resolve_prompt-IsSteady s pv w f
waited_for-IsSteady s timed_out w f = IsSteady-refl w f
waited_for-IsSteady s disconnected w f = (hang_up-IsSteady s w f).0

idle_wait-IsSteady : (t : Turn) (w : Worker) → IsWellFormed w → IsSteady w (idle_wait t w)
unfolding idle_wait
idle_wait-IsSteady t w f =
    if_open-IsSteady w.verdict_channel_open w (waited_for t.surroundings t.waited w) f
      (waited_for-IsSteady t.surroundings t.waited w f)

after-Progress :
    (t : Turn) (errors : ℕ) (r : Received) (w : Worker)
    → IsWellFormed w
    → w.next_prompt_id + 1 < 2 ^ 64
    → Progress (λ n. received n r) w (after t errors r w).0
after-Progress t errors (got msg) w f below = handle_message-Progress t.surroundings msg w f below
after-Progress t errors would_block w f below =
    Progress-of_IsSteady w (idle_wait t w) (idle_wait-IsSteady t w f)
after-Progress t errors interrupted w f below = Progress-of_IsSteady w w (IsSteady-refl w f)
after-Progress t errors failed w f below = Progress-of_IsSteady w w (IsSteady-refl w f)

not_running : stopped ≡ running → ⊥
not_running h = cc

proceed_running :
    (m : Worker × ℕ × Ended) (rest : Worker → ℕ → Worker × Ended)
    → (proceed m rest).1 ≡ running
    → (proceed m rest ≡ rest m.0 m.1) × (m.2 ≡ running)
proceed_running (w, errors, running) rest e = (refl, refl)
proceed_running (w, errors, stopped) rest e = cc
proceed_running (w, errors, gave_up) rest e = cc

turn_running :
    (t : Turn) (errors : ℕ) (w : Worker)
    → (turn t errors w).2 ≡ running
    → turn t errors w ≡ after t errors t.received (drain_verdicts t w)
unfolding turn
turn_running t errors w e = elim (Bool-cases t.stop) [
  | inr going ↦ rw (turn, going) refl
  | inl stops ↦
      let ended : turn t errors w ≡ (w, errors, stopped) = rw (turn, stops) refl in
      absurd (not_running (sym (ap (λ (m : Worker × ℕ × Ended). m.2) ended) ∙ e))
]

turn-Progress :
    (t : Turn) (errors : ℕ) (w : Worker)
    → IsWellFormed w
    → w.next_prompt_id + 1 < 2 ^ 64
    → (turn t errors w).2 ≡ running
    → Progress (λ n. received n t.received) w (turn t errors w).0
turn-Progress t errors w f below e =
    let drained = drain_verdicts t w in
    let steady = drain_verdicts-IsSteady t w f in
    let went =
      after-Progress t errors t.received drained steady.formed (omega (arith, steady.near)) in
    rw (turn_running t errors w e) (record {
      formed = went.formed;
      accounts = λ n. omega (arith, went.accounts n, steady.accounts n);
      near = omega (arith, went.near, steady.near);
    })

-- While the loop runs, and as long as the numbers of the prompts do not run over, it keeps its state
-- well formed, and every message is answered or waits as often as the queue has given it, above
-- what was so before.
pub run_loop-accounted :
    (n : ℕ) (turns : List Turn) (errors : ℕ) (w : Worker)
    → IsWellFormed w
    → w.next_prompt_id + length turns < 2 ^ 64
    → (run_loop turns errors w).1 ≡ running
    → let (w', _) = run_loop turns errors w in
      IsWellFormed w' × (accounted n w' ≡ accounted n w + receipts n turns)
unfolding run_loop
run_loop-accounted n [] errors w f below e = (f, omega arith)
run_loop-accounted n (t ∷ turns) errors w f below e =
    let (same, goes) =
      proceed_running (turn t errors w) (λ w' errors'. run_loop turns errors' w') e in
    let (w', errors', _) = turn t errors w in
    let went = turn-Progress t errors w f (omega arith) goes in
    let (formed, rest) =
      run_loop-accounted n turns errors' w' went.formed (omega (arith, went.near))
        (ap (λ (m : Worker × Ended). m.1) (sym same) ∙ e) in
    rw same (formed, omega (arith, rest, went.accounts n))
