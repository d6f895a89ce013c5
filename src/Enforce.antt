-- ===== src/Enforce.antt =====
-- crates/cfc-daemon/src/ebpf/enforce.rs: the daemon's half of the enforcement in the kernel, which
-- compiles rules into the kernel's tables and keeps the verdicts of the processes up to date.
pub mod Programs
pub mod Entries
pub mod Compiled
pub mod Unattended
pub mod Resynced
use mathlib.Core.Option.{get_or}
use colony_firewall_control.Prelude.{
  ℕ, ◌+◌, Bool, true, false, not, ◌&&◌, ◌||◌, Option, none, some, List, [], ◌∷◌, map, ltb, ◌==◌,
  if◌then◌else◌, is_some, is_none, is_some_and, retain, any, length, Text, text_eq,
}
use colony_firewall_control.Prelude.Maps.{Map, get, put, remove}
use colony_firewall_control.Process.{Process, unknown}
use colony_firewall_control.Engine.{Engine, denies_process_wide, compilable_exe_paths}
use colony_firewall_control.Kernel.{Kernel, Takes, insert, deny_value, hash_exe_path}

-- The sink with the maps that it writes. `exe_rules` and `exe_rules_on` say whether the object has
-- these maps, which an older one has not.
pub record VerdictSink : Type 0 where
  pub kernel : Kernel
  pub engine : Engine
  pub exe_rules : Bool
  pub exe_rules_on : Bool
  pub last_compiled : Option (Map ℕ)

-- The process that stands for a program: its path and nothing else.
unfoldable pub synthetic : Text → Process
unfolding unknown
synthetic path = record (unknown 0) { exe = path }

-- The entries for the paths that are denied.
unfoldable pub entries : Engine → ℕ → List Text → Map ℕ
entries e now [] = []
entries e now (path ∷ paths) =
    let rest = entries e now paths in
    if denies_process_wide e (synthetic path) now
    then put (hash_exe_path path) deny_value rest
    else rest

unfoldable pub wanted : Engine → ℕ → Map ℕ
unfolding entries
wanted e now = entries e now (get_or (compilable_exe_paths e now) [])

-- `==` of two hash maps: as many entries, and each of the one is in the other.
abbrev pub within : Map ℕ → Map ℕ → Bool
within [] m = true
within ((k, v) ∷ rest) m = is_some_and (get k m) (λ x. x == v) && within rest m

unfoldable pub map_eq : Map ℕ → Map ℕ → Bool
map_eq a b = length a == length b && within a b

-- The loop that writes the entries, and how many the table took.
unfoldable pub write_all : Takes → Map ℕ → Map ℕ → ℕ → Map ℕ × ℕ
write_all takes [] table written = (table, written)
write_all takes ((k, v) ∷ rest) table written =
    write_all takes rest (if takes k then put k v table else table)
      (if takes k then written + 1 else written)

unfoldable pub drop_stale : Map ℕ → Map ℕ → Map ℕ
drop_stale keep [] = []
drop_stale keep ((k, v) ∷ table) =
    let rest = drop_stale keep table in if is_some (get k keep) then (k, v) ∷ rest else rest

-- The end of `compile_rules`, with the table as it was left.
unfoldable pub record_compiled : Map ℕ → Map ℕ × ℕ → VerdictSink → VerdictSink
record_compiled w (table, written) s = record s {
  kernel = record s.kernel {
    exe_rules = table;
    exe_rules_on =
        if s.exe_rules_on then (if ltb 0 written then 1 else 0) else s.kernel.exe_rules_on;
  };
  last_compiled = if written == length w then some w else s.last_compiled;
}

unfoldable pub compile_rules : Takes → ℕ → VerdictSink → VerdictSink
unfolding record_compiled
compile_rules takes now s =
    let w = wanted s.engine now in
    if not s.exe_rules
    then s
    else if is_some_and s.last_compiled (λ m. map_eq m w)
    then s
    else record_compiled w (write_all takes w (drop_stale w s.kernel.exe_rules) 0) s

-- A decision written to the table of processes.
unfoldable pub write_verdict : Takes → ℕ → Bool → Map ℕ → Map ℕ
unfolding insert
write_verdict takes pid deny m = if deny then insert takes pid deny_value m else remove pid m

unfoldable pub with_verdicts : Map ℕ → VerdictSink → VerdictSink
with_verdicts m s = record s { kernel = record s.kernel { verdicts = m } }

-- `resolved` is what `proc_exe` reads; an equal path changes nothing.
unfoldable pub corrected : Option Text → Process → Process
corrected none proc = proc
corrected (some exe) proc = if text_eq exe proc.exe then proc else record proc { exe = exe }

unfoldable pub on_exec : Takes → ℕ → ℕ → Option Text → Process → VerdictSink → VerdictSink
unfolding corrected write_verdict with_verdicts
on_exec takes now pid resolved proc s =
    let deny = denies_process_wide s.engine (corrected resolved proc) now in
    with_verdicts (write_verdict takes pid deny s.kernel.verdicts) s

unfoldable pub on_exit : ℕ → VerdictSink → VerdictSink
unfolding with_verdicts
on_exit pid s = with_verdicts (remove pid s.kernel.verdicts) s

-- What a resync reads of the processes: those that were seen to exec, `proc_view` and
-- `proc_starttime` for these and then for the orphans, and the verdicts that others write while the
-- orphans are judged.
pub record World : Type 0 where
  pub live : List ℕ
  pub view : ℕ → Option (Process × Option ℕ)
  pub started : ℕ → Option ℕ
  pub orphan_view : ℕ → Option (Process × Option ℕ)
  pub meanwhile : List (ℕ × Bool)
  pub orphan_started : ℕ → Option ℕ

-- `judged_at.is_some() && proc_starttime(pid) == judged_at`.
unfoldable pub still : Option ℕ → Option ℕ → Bool
still none now = false
still (some t) none = false
still (some t) (some u) = u == t

unfoldable pub judged : Engine → ℕ → World → ℕ → Option Bool
unfolding still
judged e now w pid = elim (w.view pid) [
  | none ↦ none
  | some (p, at) ↦ if still at (w.started pid) then some (denies_process_wide e p now) else none
]

unfoldable pub deny_work : Engine → ℕ → World → List ℕ → List (ℕ × Bool)
unfolding judged
deny_work e now w [] = []
deny_work e now w (pid ∷ pids) = elim (judged e now w pid) [
  | none ↦ deny_work e now w pids
  | some deny ↦ (pid, deny) ∷ deny_work e now w pids
]

unfoldable pub write_verdicts : Takes → List (ℕ × Bool) → Map ℕ → Map ℕ
write_verdicts takes [] m = m
write_verdicts takes ((pid, deny) ∷ work) m =
    write_verdicts takes work (write_verdict takes pid deny m)

abbrev keys : Map ℕ → List ℕ
keys [] = []
keys ((k, v) ∷ m) = k ∷ keys m

-- The orphans to clear, with the instant at which each was judged.
unfoldable pub doomed : Engine → ℕ → World → List ℕ → List (ℕ × Option ℕ)
doomed e now w [] = []
doomed e now w (pid ∷ pids) = elim (w.orphan_view pid) [
  | none ↦ (pid, none) ∷ doomed e now w pids
  | some (p, at) ↦
      let rest = doomed e now w pids in
      if denies_process_wide e p now then rest else (pid, at) ∷ rest
]

-- `now.is_none() || now == judged_at`.
unfoldable pub may_clear : Option ℕ → Option ℕ → Bool
may_clear at none = true
may_clear none (some u) = false
may_clear (some t) (some u) = u == t

unfoldable pub sweep : World → List (ℕ × Option ℕ) → Map ℕ → Map ℕ
sweep w [] m = m
sweep w ((pid, at) ∷ rest) m =
    sweep w rest (if may_clear at (w.orphan_started pid) then remove pid m else m)

unfoldable pub orphans : World → Map ℕ → List ℕ
orphans w m = retain (λ pid. not (any (λ l. l == pid) w.live)) (keys m)

unfoldable pub resync : Takes → Takes → ℕ → World → VerdictSink → VerdictSink
unfolding with_verdicts
resync takes_rule takes now w s =
    let compiled = compile_rules takes_rule now s in
    let enforced =
      write_verdicts takes (deny_work s.engine now w w.live) compiled.kernel.verdicts in
    let gone = doomed s.engine now w (orphans w enforced) in
    with_verdicts (sweep w gone (write_verdicts takes w.meanwhile enforced)) compiled
