-- ===== src/Nfqueue/Worker/Loop/Turns.antt =====
-- When the loop of the worker ends, and what it leaves.
use colony_firewall_control.Prelude.{
  ℕ, ◌+◌, ◌≤◌, ◌<◌, ◌≡◌, ◌↔◌, inl, inr, refl, Bool, true, false, List, [], ◌∷◌, leb, All,
  Bool-cases, arith,
}
use colony_firewall_control.Nfqueue.Worker.{Worker}
use colony_firewall_control.Nfqueue.Worker.Loop.{
  Received, got, would_block, interrupted, failed, Turn, max_consecutive_recv_errors,
  drain_verdicts, idle_wait, gave_up, after, turn, proceed, run_loop,
}

-- A turn without a packet and without a request to stop.
abbrev pub no_packet : Received → Bool
no_packet (got msg) = false
no_packet would_block = true
no_packet interrupted = true
no_packet failed = true

abbrev pub Dry : Turn → Type 0
Dry t = (t.stop ≡ false) × (no_packet t.received ≡ true)

abbrev pub hard : Received → ℕ
hard failed = 1
hard (got msg) = 0
hard would_block = 0
hard interrupted = 0

abbrev pub failures : List Turn → ℕ
failures [] = 0
failures (t ∷ turns) = hard t.received + failures turns

-- Giving up, over turns that start with some number of errors.
abbrev GivesUp : List Turn → ℕ → Worker → Type 0
GivesUp turns errors w =
    ((run_loop turns errors w).1 ≡ gave_up)
    ↔ (max_consecutive_recv_errors ≤ errors + failures turns)

after-GivesUp :
    (t : Turn) (turns : List Turn) (errors : ℕ) (r : Received) (w : Worker)
    → ((errors' : ℕ) (w' : Worker)
        → errors' < max_consecutive_recv_errors
        → GivesUp turns errors' w')
    → no_packet r ≡ true
    → errors < max_consecutive_recv_errors
    → ((proceed (after t errors r w) (λ w' errors'. run_loop turns errors' w')).1 ≡ gave_up)
      ↔ (max_consecutive_recv_errors ≤ errors + (hard r + failures turns))
after-GivesUp t turns errors (got msg) w later dry few = cc
after-GivesUp t turns errors would_block w later dry few =
    let rest = later errors (idle_wait t w) few in
    (λ h. omega (arith, rest.0 h), λ h. rest.1 (omega arith))
after-GivesUp t turns errors interrupted w later dry few =
    let rest = later errors w few in (λ h. omega (arith, rest.0 h), λ h. rest.1 (omega arith))
after-GivesUp t turns errors failed w later dry few =
    elim (Bool-cases (leb max_consecutive_recv_errors (errors + 1))) [
      | inl e ↦ rw e (λ h. ground (arith, e), λ h. refl)
      | inr e ↦
          let rest = later (errors + 1) w (ground (arith, e)) in
          rw e (λ h. omega (arith, rest.0 h), λ h. rest.1 (omega arith))
    ]

run_loop-turn :
    (t : Turn) (turns : List Turn) (errors : ℕ) (w : Worker)
    → t.stop ≡ false
    → run_loop (t ∷ turns) errors w
      ≡ proceed
          (after t errors t.received (drain_verdicts t w))
          (λ w' errors'. run_loop turns errors' w')
unfolding run_loop turn
run_loop-turn t turns errors w e = rw (run_loop, e) refl

-- Over turns that bring no packet and no request to stop, the loop gives up exactly if they hold, with
-- the errors before them, a hundred failed receptions; the idle turns between these do not count,
-- and do not start the count anew.
pub run_loop-gave_up :
    (turns : List Turn) (errors : ℕ) (w : Worker)
    → All Dry turns
    → errors < max_consecutive_recv_errors
    → ((run_loop turns errors w).1 ≡ gave_up)
      ↔ (max_consecutive_recv_errors ≤ errors + failures turns)
unfolding run_loop
run_loop-gave_up [] errors w dry few = (λ h. cc, λ h. absurd (omega arith))
run_loop-gave_up (t ∷ turns) errors w (d, dry) few = rw (run_loop-turn t turns errors w d.0) (
    after-GivesUp t turns errors t.received (drain_verdicts t w)
      (λ errors' w' few'. run_loop-gave_up turns errors' w' dry few') d.1 few)
