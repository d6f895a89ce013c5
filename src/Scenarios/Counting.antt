-- ===== src/Scenarios/Counting.antt =====
-- A connection is counted, and a pause is lifted before its timer fires.
use colony_firewall_control.Prelude.{◌%◌, ◌≡◌, ◌↔◌, true, false, arith}
use colony_firewall_control.Stats.{Stats, new, record_allow, record_deny, set_paused, word}
use colony_firewall_control.Stats.Traces.{
  Trace, here, next, allowed, pause_set, switches, set_paused-pause_generation,
}

abbrev counted : Stats
counted = record_deny (record_allow new)

abbrev paused : Stats
paused = (set_paused true new).0

abbrev lifted : Trace paused (set_paused false (record_allow paused)).0
lifted = next (next here allowed) (pause_set false)

set_paused-pause_generation_example :
    ((set_paused false (record_allow paused)).0.pause_generation % word ≡ (set_paused true new).1)
    ↔ (switches lifted ≡ 0)
set_paused-pause_generation_example = set_paused-pause_generation new true lifted (omega arith)
