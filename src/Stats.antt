-- ===== src/Stats.antt =====
-- crates/cfc-daemon/src/stats.rs: the counters that the daemon's parts share. Each function is the
-- atomic operations that the source does, one after the other; `started` is the clock's business.
pub mod Traces
use colony_firewall_control.Prelude.{ℕ, ◌+◌, ◌-◌, ◌%◌, ◌^◌, Bool, false, ◌==◌, if◌then◌else◌}

-- `fetch_add` and `fetch_sub` of an `AtomicU64` wrap.
abbrev pub word : ℕ
word = 2 ^ 64

abbrev pub fetch_add : ℕ → ℕ
fetch_add n = (n + 1) % word

abbrev pub fetch_sub : ℕ → ℕ
fetch_sub n = (n + word - 1) % word

pub data TablePresence : Type 0 where
  unknown present absent : TablePresence

unfoldable pub as_u8 : TablePresence → ℕ
as_u8 unknown = 0
as_u8 present = 1
as_u8 absent = 2

unfoldable pub from_u8 : ℕ → TablePresence
from_u8 v = if v == 1 then present else if v == 2 then absent else unknown

pub record Stats : Type 0 where
  pub connections_total : ℕ
  pub connections_allowed : ℕ
  pub connections_denied : ℕ
  pub prompts_pending : ℕ
  pub paused : Bool
  pub pause_generation : ℕ
  pub nft_table : ℕ

unfoldable pub new : Stats
unfolding as_u8
new = record {
  connections_total = 0;
  connections_allowed = 0;
  connections_denied = 0;
  prompts_pending = 0;
  paused = false;
  pause_generation = 0;
  nft_table = as_u8 unknown;
}

unfoldable pub record_allow : Stats → Stats
record_allow s = record s {
  connections_total = fetch_add s.connections_total;
  connections_allowed = fetch_add s.connections_allowed;
}

unfoldable pub record_deny : Stats → Stats
record_deny s = record s {
  connections_total = fetch_add s.connections_total;
  connections_denied = fetch_add s.connections_denied;
}

unfoldable pub prompts_inc : Stats → Stats
prompts_inc s = record s { prompts_pending = fetch_add s.prompts_pending }

unfoldable pub prompts_dec : Stats → Stats
prompts_dec s = record s { prompts_pending = fetch_sub s.prompts_pending }

unfoldable pub set_nft_table : TablePresence → Stats → Stats
unfolding as_u8
set_nft_table probe s = record s { nft_table = as_u8 probe }

unfoldable pub nft_table : Stats → TablePresence
unfolding from_u8
nft_table s = from_u8 s.nft_table

-- `fetch_add` returns the old generation; the caller gets the one after it. The addition that the
-- source does on the value returned wraps in a release build, as here.
unfoldable pub set_paused : Bool → Stats → Stats × ℕ
set_paused paused s = (
  record s { paused = paused; pause_generation = fetch_add s.pause_generation },
  fetch_add s.pause_generation,
)
