-- ===== src/Nfqueue/Worker/Events.antt =====
-- The worker over a sequence of events: packets that come, prompts that are answered, and the
-- router that hangs up. The loop of `run` waits for one of them at a time.
use colony_firewall_control.Prelude.{
  ℕ, ◌+◌, ◌^◌, ◌≤◌, ◌<◌, ◌≡◌, refl, ap, sym, ◌∙◌, inl, inr, false, none, List, [], ◌∷◌, map, length,
  Option-cases, arith,
}
use colony_firewall_control.Prelude.Maps.{Map, get, remove, remove_absent, Unique}
use colony_firewall_control.Engine.{Engine}
use colony_firewall_control.Reject.{Rejecter}
use colony_firewall_control.Stats.{Stats}
use colony_firewall_control.Nfqueue.Worker.{
  Worker, Message, PendingPrompt, PromptVerdict, Surroundings, started, prompt_session_seed,
  resolve_prompt, resolve_each, flush_waiters_disconnected, close_verdict_channel,
}
use colony_firewall_control.Nfqueue.Worker.Parking.{handle_message}
use colony_firewall_control.Nfqueue.Worker.Keys.{flow_remove, flow_get}
use colony_firewall_control.Nfqueue.Worker.Counted.{answers, parked, release_all-Keeps}
use colony_firewall_control.Nfqueue.Worker.Invariant.{IsWellFormed, IsWellFormed-later}
use colony_firewall_control.Nfqueue.Worker.Steps.{
  accounted, Progress, one, resolve_prompt-Progress, handle_message-Progress,
}

pub data Event : Type 0 where
  arrived : Surroundings → Message → Event
  answered : Surroundings → PromptVerdict → Event
  hung_up : Surroundings → Event

unfoldable pub step : Event → Worker → Worker
unfolding handle_message resolve_prompt close_verdict_channel
step (arrived s msg) w = handle_message s msg w
step (answered s pv) w = resolve_prompt s pv w
step (hung_up s) w = close_verdict_channel s w

unfoldable pub run : List Event → Worker → Worker
unfolding step
run [] w = w
run (e ∷ events) w = run events (step e w)

-- How often message `n` came.
abbrev pub came : ℕ → Event → ℕ
came n (arrived s msg) = one msg n
came n (answered s pv) = 0
came n (hung_up s) = 0

abbrev pub arrivals : ℕ → List Event → ℕ
arrivals n [] = 0
arrivals n (e ∷ events) = came n e + arrivals n events

-- The prompts that are resolved by number leave the table.
abbrev remove_all : List ℕ → Map PendingPrompt → Map PendingPrompt
remove_all [] m = m
remove_all (id ∷ ids) m = remove_all ids (remove id m)

remove_first :
    (k : ℕ) (p : PendingPrompt) (m : Map PendingPrompt) → get k m ≡ none → remove k ((k, p) ∷ m) ≡ m
unfolding remove
remove_first k p m h = ground (arith, remove_absent k m h)

remove_all-keys : (m : Map PendingPrompt) → Unique m → remove_all (map (λ x. x.0) m) m ≡ []
remove_all-keys [] u = refl
remove_all-keys ((k, p) ∷ m) u =
    ap (remove_all (map (λ x. x.0) m)) (remove_first k p m u.0) ∙ remove_all-keys m u.1

pub resolve_prompt-waiters :
    (s : Surroundings) (pv : PromptVerdict) (w : Worker)
    → ((resolve_prompt s pv w).waiters ≡ remove pv.prompt_id w.waiters)
      × ((resolve_prompt s pv w).next_prompt_id ≡ w.next_prompt_id)
unfolding resolve_prompt
resolve_prompt-waiters s pv w = elim (Option-cases (get pv.prompt_id w.waiters)) [
  | inl e ↦ rw (resolve_prompt, e) (sym (remove_absent pv.prompt_id w.waiters e), refl)
  | inr (pending, e) ↦
      let kept = release_all-Keeps s pv.verdict pending.packets (record w {
        waiters = remove pv.prompt_id w.waiters;
        pending_flows = flow_remove pending.flow w.pending_flows;
      }) in
      rw (resolve_prompt, e) (kept.waiters, kept.next_prompt_id)
]

resolve_each-Progress :
    (s : Surroundings) (ids : List ℕ) (w : Worker)
    → IsWellFormed w
    → IsWellFormed (resolve_each s ids w)
      × ((n : ℕ) → accounted n (resolve_each s ids w) ≡ accounted n w)
      × ((resolve_each s ids w).waiters ≡ remove_all ids w.waiters)
      × ((resolve_each s ids w).next_prompt_id ≤ w.next_prompt_id)
unfolding resolve_each
resolve_each-Progress s [] w f = (f, λ n. refl, refl, omega arith)
resolve_each-Progress s (id ∷ ids) w f = elim (Option-cases (get id w.waiters)) [
  | inl e ↦
      let (formed, accounts, left, near) = resolve_each-Progress s ids w f in
      rw (resolve_each, e)
        (formed, accounts, left ∙ ap (remove_all ids) (sym (remove_absent id w.waiters e)), near)
  | inr (pending, e) ↦
      let pv : PromptVerdict = record { prompt_id = id; verdict = pending.fallback } in
      let next = resolve_prompt s pv w in
      let went = resolve_prompt-Progress s pv w f in
      let (gone, same) = resolve_prompt-waiters s pv w in
      let (formed, accounts, left, near) = resolve_each-Progress s ids next went.formed in
      rw (resolve_each, e)
        (
          formed,
          λ n. accounts n ∙ went.accounts n ∙ omega arith,
          left ∙ ap (remove_all ids) gone,
          omega (arith, near, same),
        )
]

-- What an operation does that takes no message in and numbers no prompt.
pub record IsSteady (w w' : Worker) : Type 0 where
  pub formed : IsWellFormed w'
  pub accounts : (n : ℕ) → accounted n w' ≡ accounted n w
  pub near : w'.next_prompt_id ≤ w.next_prompt_id

pub resolve_prompt-IsSteady :
    (s : Surroundings) (pv : PromptVerdict) (w : Worker)
    → IsWellFormed w
    → IsSteady w (resolve_prompt s pv w)
resolve_prompt-IsSteady s pv w f =
    let went = resolve_prompt-Progress s pv w f in
    record {
      formed = went.formed;
      accounts = λ n. omega (arith, went.accounts n);
      near = omega (arith, (resolve_prompt-waiters s pv w).1);
    }

pub hang_up-IsSteady :
    (s : Surroundings) (w : Worker)
    → IsWellFormed w
    → IsSteady w (close_verdict_channel s w) × ((close_verdict_channel s w).waiters ≡ [])
unfolding close_verdict_channel flush_waiters_disconnected
hang_up-IsSteady s w f =
    let closed : Worker = record w { verdict_channel_open = false } in
    let (formed, accounts, left, near) =
      resolve_each-Progress s (map (λ x. x.0) w.waiters) closed
        (IsWellFormed-later w closed refl refl (omega arith) f) in
    (
      record { formed = formed; accounts = λ n. omega (arith, accounts n); near = near },
      left ∙ remove_all-keys w.waiters f.unique,
    )

pub Progress-of_IsSteady : (w w' : Worker) → IsSteady w w' → Progress (λ n. 0) w w'
Progress-of_IsSteady w w' went = record {
  formed = went.formed;
  accounts = λ n. omega (arith, went.accounts n);
  near = omega (arith, went.near);
}

step-Progress :
    (e : Event) (w : Worker)
    → IsWellFormed w
    → w.next_prompt_id + 1 < 2 ^ 64
    → Progress (λ n. came n e) w (step e w)
unfolding step
step-Progress (arrived s msg) w f below = handle_message-Progress s msg w f below
step-Progress (answered s pv) w f below =
    Progress-of_IsSteady w (resolve_prompt s pv w) (resolve_prompt-IsSteady s pv w f)
step-Progress (hung_up s) w f below =
    Progress-of_IsSteady w (close_verdict_channel s w) (hang_up-IsSteady s w f).0

-- As long as the numbers of the prompts do not run over, a worker whose state is well formed keeps
-- it so: at most 512 prompts wait, each of them with at least one and at most four packets, which
-- all go where its flow goes and are of its user and its program, and flows and prompts are in
-- one-to-one correspondence.
pub run-IsWellFormed :
    (events : List Event) (w : Worker)
    → IsWellFormed w
    → w.next_prompt_id + length events < 2 ^ 64
    → IsWellFormed (run events w)
unfolding run
run-IsWellFormed [] w f below = f
run-IsWellFormed (e ∷ events) w f below =
    let went = step-Progress e w f (omega arith) in
    run-IsWellFormed events (step e w) went.formed (omega (arith, went.near))

-- As long as the numbers of the prompts do not run over, a worker whose state is well formed loses
-- no packet and answers none twice: a message is answered or waits as often as it came, above what
-- was so before.
pub run-accounted :
    (n : ℕ) (events : List Event) (w : Worker)
    → IsWellFormed w
    → w.next_prompt_id + length events < 2 ^ 64
    → accounted n (run events w) ≡ accounted n w + arrivals n events
unfolding run
run-accounted n [] w f below = omega arith
run-accounted n (e ∷ events) w f below =
    let went = step-Progress e w f (omega arith) in
    omega (
      arith,
      run-accounted n events (step e w) went.formed (omega (arith, went.near)),
      went.accounts n,
    )

pub started-IsWellFormed :
    (lo : ℕ) (engine : Engine) (rejecter : Rejecter) (stats : Stats) (random : ℕ)
    → IsWellFormed (started lo engine rejecter stats random)
unfolding started get flow_get
started-IsWellFormed lo engine rejecter stats random = record {
  unique = tt;
  capped = omega arith;
  sound = λ id pending e. cc;
  waits = λ flow id e. cc;
}

-- A worker that starts, sees at most 2^63 events and then loses its router has told the kernel of
-- every message as often as it came, and nothing waits.
pub hung_up-answers :
    (lo : ℕ) (engine : Engine) (rejecter : Rejecter) (stats : Stats) (random n : ℕ)
    (events : List Event) (s : Surroundings)
    → length events ≤ 2 ^ 63
    → let w = close_verdict_channel s (run events (started lo engine rejecter stats random)) in
      (w.waiters ≡ []) × (answers n w.verdicts ≡ arrivals n events)
unfolding started prompt_session_seed answers parked
hung_up-answers lo engine rejecter stats random n events s few =
    let w = started lo engine rejecter stats random in
    let f = started-IsWellFormed lo engine rejecter stats random in
    let below : w.next_prompt_id + length events < 2 ^ 64 = omega (arith, few) in
    let (last, empty) = hang_up-IsSteady s (run events w) (run-IsWellFormed events w f below) in
    (empty, omega (arith, last.accounts n, run-accounted n events w f below, ap (parked n) empty))
