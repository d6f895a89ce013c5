-- ===== src/Stats/Traces.antt =====
-- The counters over every sequence of operations.
use colony_firewall_control.Prelude.{ℕ, ◌+◌, ◌%◌, ◌<◌, ◌≡◌, ◌↔◌, refl, Bool, arith}
use colony_firewall_control.Stats.{
  Stats, TablePresence, unknown, present, absent, word, new, record_allow, record_deny, prompts_inc,
  prompts_dec, set_nft_table, nft_table, set_paused, as_u8, from_u8,
}

pub data Step (s : Stats) : Stats → Type 0 where
  allowed : Step s (record_allow s)
  denied : Step s (record_deny s)
  prompted : Step s (prompts_inc s)
  answered : Step s (prompts_dec s)
  probed : (probe : TablePresence) → Step s (set_nft_table probe s)
  pause_set : (paused : Bool) → Step s (set_paused paused s).0

-- Whether a step set the pause switch.
abbrev pub sets_pause : {s t : Stats} → Step s t → ℕ
sets_pause allowed = 0
sets_pause denied = 0
sets_pause prompted = 0
sets_pause answered = 0
sets_pause (probed probe) = 0
sets_pause (pause_set paused) = 1

pub data Trace (s : Stats) : Stats → Type 0 where
  here : Trace s s
  next : {t u : Stats} → Trace s t → Step t u → Trace s u

-- How often the pause switch was set on the way.
abbrev pub switches : {s t : Stats} → Trace s t → ℕ
switches here = 0
switches (next trace step) = sets_pause step + switches trace

abbrev IsSummed : Stats → Type 0
IsSummed s = s.connections_total ≡ (s.connections_allowed + s.connections_denied) % word

Step-IsSummed : {s t : Stats} → Step s t → IsSummed s → IsSummed t
unfolding record_allow record_deny prompts_inc prompts_dec set_nft_table set_paused
Step-IsSummed {s} allowed h = omega arith
Step-IsSummed {s} denied h = omega arith
Step-IsSummed {s} prompted h = h
Step-IsSummed {s} answered h = h
Step-IsSummed {s} (probed probe) h = h
Step-IsSummed {s} (pause_set paused) h = h

Trace-IsSummed : {s t : Stats} → Trace s t → IsSummed s → IsSummed t
Trace-IsSummed here h = h
Trace-IsSummed (next trace step) h = Step-IsSummed step (Trace-IsSummed trace h)

-- Over every sequence of operations from the start, the connections in total are the allowed and the
-- denied ones together, modulo 2^64.
pub Trace-connections_total :
    {s : Stats}
    → Trace new s
    → s.connections_total ≡ (s.connections_allowed + s.connections_denied) % word
unfolding new
Trace-connections_total trace = Trace-IsSummed trace refl

generation :
    {s t : Stats} (step : Step s t)
    → t.pause_generation % word ≡ (s.pause_generation + sets_pause step) % word
unfolding record_allow record_deny prompts_inc prompts_dec set_nft_table set_paused
generation {s} allowed = omega arith
generation {s} denied = omega arith
generation {s} prompted = omega arith
generation {s} answered = omega arith
generation {s} (probed probe) = omega arith
generation {s} (pause_set paused) = omega arith

generations :
    {s t : Stats} (trace : Trace s t)
    → t.pause_generation % word ≡ (s.pause_generation + switches trace) % word
generations here = omega arith
generations {s} (next {t = t} trace step) = ground (arith, generation step, generations trace)

-- A timer that remembers the generation that `set_paused` gave it sees another one as soon as the
-- switch was set again, and fewer than 2^64 times, whatever else happened; otherwise it sees its
-- own.
pub set_paused-pause_generation :
    (s : Stats) (paused : Bool) {t : Stats} (trace : Trace (set_paused paused s).0 t)
    → switches trace < word
    → (t.pause_generation % word ≡ (set_paused paused s).1) ↔ (switches trace ≡ 0)
unfolding set_paused
set_paused-pause_generation s paused trace few =
    let seen = generations trace in (λ h. omega arith, λ h. omega arith)

-- What the probe of the nftables table stores is what is read back.
pub nft_table-set_nft_table :
    (probe : TablePresence) (s : Stats) → nft_table (set_nft_table probe s) ≡ probe
unfolding nft_table set_nft_table as_u8 from_u8
nft_table-set_nft_table unknown s = refl
nft_table-set_nft_table present s = refl
nft_table-set_nft_table absent s = refl
