-- ===== src/Nfqueue/Worker/Loop.antt =====
-- `Worker::run` of crates/cfc-daemon/src/nfqueue/mod.rs: the loop around the worker's operations.
-- What a turn finds in the queue and in the channel of the verdicts is an argument of it.
pub mod Turns
pub mod Kept
use colony_firewall_control.Prelude.{
  ℕ, ◌+◌, Bool, true, false, not, List, [], ◌∷◌, leb, if◌then◌else◌,
}
use colony_firewall_control.Nfqueue.Worker.{
  Worker, Message, PromptVerdict, Surroundings, resolve_prompt, close_verdict_channel,
}
use colony_firewall_control.Nfqueue.Worker.Parking.{handle_message}

-- What `recv` of the queue returns; `failed` is any error but the two before it.
pub data Received : Type 0 where
  got : Message → Received
  would_block interrupted failed : Received

-- What `recv_timeout` of the channel returns.
pub data Waited : Type 0 where
  verdict : PromptVerdict → Waited
  timed_out disconnected : Waited

-- `drained` is what `try_recv` returns until the channel is empty, or closed if `closed`.
pub record Turn : Type 0 where
  pub stop : Bool
  pub surroundings : Surroundings
  pub drained : List PromptVerdict
  pub closed : Bool
  pub received : Received
  pub waited : Waited

abbrev pub max_consecutive_recv_errors : ℕ
max_consecutive_recv_errors = 100

unfoldable pub drain : Surroundings → List PromptVerdict → Bool → Worker → Worker
unfolding resolve_prompt close_verdict_channel
drain s [] closed w = if closed then close_verdict_channel s w else w
drain s (pv ∷ pvs) closed w = drain s pvs closed (resolve_prompt s pv w)

unfoldable pub drain_verdicts : Turn → Worker → Worker
unfolding drain
drain_verdicts t w =
    if not w.verdict_channel_open then w else drain t.surroundings t.drained t.closed w

abbrev pub waited_for : Surroundings → Waited → Worker → Worker
waited_for s (verdict pv) w = resolve_prompt s pv w
waited_for s timed_out w = w
waited_for s disconnected w = close_verdict_channel s w

unfoldable pub idle_wait : Turn → Worker → Worker
unfolding resolve_prompt close_verdict_channel
idle_wait t w = if not w.verdict_channel_open then w else waited_for t.surroundings t.waited w

pub data Ended : Type 0 where
  running stopped gave_up : Ended

-- What a turn leaves: the worker, the errors in a row, and whether the loop ends.
abbrev pub after : Turn → ℕ → Received → Worker → Worker × ℕ × Ended
after t errors (got msg) w = (handle_message t.surroundings msg w, 0, running)
after t errors would_block w = (idle_wait t w, errors, running)
after t errors interrupted w = (w, errors, running)
after t errors failed w =
    (w, errors + 1, if leb max_consecutive_recv_errors (errors + 1) then gave_up else running)

unfoldable pub turn : Turn → ℕ → Worker → Worker × ℕ × Ended
unfolding handle_message idle_wait drain_verdicts
turn t errors w =
    if t.stop then (w, errors, stopped) else after t errors t.received (drain_verdicts t w)

abbrev pub proceed : Worker × ℕ × Ended → (Worker → ℕ → Worker × Ended) → Worker × Ended
proceed (w, errors, running) rest = rest w errors
proceed (w, errors, stopped) rest = (w, stopped)
proceed (w, errors, gave_up) rest = (w, gave_up)

-- The loop over the turns that come.
unfoldable pub run_loop : List Turn → ℕ → Worker → Worker × Ended
unfolding turn
run_loop [] errors w = (w, running)
run_loop (t ∷ turns) errors w = proceed (turn t errors w) (λ w' errors'. run_loop turns errors' w')
