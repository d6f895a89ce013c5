-- ===== src/Reject/Bucket.antt =====
-- crates/cfc-daemon/src/reject.rs: the token bucket of the refusals that leave the machine. Instants
-- are in nanoseconds. An amount of tokens is an `f64`: none is negative, and the amounts are counted
-- in 2^-1074, of which every `f64` is a whole multiple. The rounded arithmetic of the machine is an
-- argument.
pub mod Bound
use Prim.Native.Nat.{min}
use colony_firewall_control.Prelude.{ℕ, ◌*◌, ◌-◌, ◌^◌, Bool, true, false, leb, if◌then◌else◌}

abbrev pub token : ℕ
token = 2 ^ 1074

-- What the machine makes of `tokens + elapsed.as_secs_f64() * per_sec`, of an amount of tokens, the
-- nanoseconds that passed and the rate.
abbrev pub Arithmetic : Type 0
Arithmetic = ℕ → ℕ → ℕ → ℕ

pub record Budget : Type 0 where
  pub tokens : ℕ
  pub last : ℕ
  pub per_sec : ℕ
  pub burst : ℕ
  pub credited : Arithmetic

unfoldable pub new : Arithmetic → ℕ → ℕ → ℕ → Budget
new credited now per_sec burst = record {
  tokens = burst * token;
  last = now;
  per_sec = per_sec;
  burst = burst;
  credited = credited;
}

-- The refill of `take_at`; `saturating_duration_since` stops at 0.
unfoldable pub refill : ℕ → Budget → Budget
refill now b = record b {
  tokens = min (b.credited b.tokens (now - b.last) b.per_sec) (b.burst * token);
  last = now;
}

-- No amount is so large that taking one token off would round.
unfoldable pub spend : Budget → Budget × Bool
spend b = if leb token b.tokens then (record b { tokens = b.tokens - token }, true) else (b, false)

unfoldable pub take_at : ℕ → Budget → Budget × Bool
unfolding refill spend
take_at now b = spend (refill now b)

abbrev pub inbound_rejects_per_sec : ℕ
inbound_rejects_per_sec = 20

abbrev pub inbound_reject_burst : ℕ
inbound_reject_burst = 20
