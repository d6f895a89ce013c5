-- ===== src/Kernel/EnforceStat.antt =====
-- crates/cfc-ebpf-proto/src/lib.rs: the slots of the counters, `enforce_stat`.
use colony_firewall_control.Prelude.{ℕ}

abbrev pub allowed : ℕ
allowed = 0

abbrev pub denied : ℕ
denied = 1

abbrev pub unknown : ℕ
unknown = 2

abbrev pub stale : ℕ
stale = 3

abbrev pub foreign_mark : ℕ
foreign_mark = 4

abbrev pub report_dropped : ℕ
report_dropped = 5
