-- ===== src/Kernel.antt =====
-- crates/cfc-ebpf/src/main.rs: what the programs in the kernel decide, on the maps that they share
-- with the daemon; crates/cfc-ebpf-proto/src/lib.rs: the layout that both agree on.
pub mod EnforceStat
pub mod Connect
use Prim.Native.Nat.{bit_xor}
use mathlib.Core.Option.{get_or}
use colony_firewall_control.Prelude.{
  ℕ, ◌+◌, ◌*◌, ◌%◌, ◌^◌, Bool, true, false, not, ◌||◌, Option, none, some, List, [], ◌∷◌, ltb, ◌==◌,
  if◌then◌else◌, length, take, Text,
}
use colony_firewall_control.Prelude.Maps.{Map, get, put, remove}

-- `verdict::DENY`.
abbrev pub deny_value : ℕ
deny_value = 2

-- `fast_allow::UNARMED`.
abbrev pub unarmed : ℕ
unarmed = 0

abbrev pub filename_len_max : ℕ
filename_len_max = 256

-- The rounds of FNV-1a, from a hash so far.
unfoldable pub hash_from : ℕ → Text → ℕ
hash_from h [] = h
hash_from h (b ∷ bytes) = hash_from (bit_xor h b * 0x100000001b3 % 2 ^ 64) bytes

unfoldable pub hash_exe_path : Text → ℕ
unfolding hash_from
hash_exe_path bytes = hash_from 0xcbf29ce484222325 bytes

pub record ExecEvent : Type 0 where
  pub pid : ℕ
  pub ppid : ℕ
  pub uid : ℕ
  pub gid : ℕ
  pub comm : Text
  pub filename : Text
  pub filename_len : ℕ

pub record ConnectReport : Type 0 where
  pub pid : ℕ
  pub addr : List ℕ
  pub port : ℕ
  pub family : ℕ
  pub protocol : ℕ

-- The maps. A ring is the list of its records, newest first. `sock_pids` is the list of what was
-- written to it: what an LRU map evicts is the kernel's choice. The counters are those of one CPU.
pub record Kernel : Type 0 where
  pub verdicts : Map ℕ
  pub exe_rules : Map ℕ
  pub exe_rules_on : ℕ
  pub fast_allow : Map ℕ
  pub fast_allow_until : ℕ
  pub fast_allow_mark : ℕ
  pub procs : Map ExecEvent
  pub sock_pids : List (ℕ × ℕ)
  pub stats : Map ℕ
  pub deny_events : List ConnectReport
  pub allow_events : List ConnectReport
  pub exec_events : List ExecEvent
  pub exit_events : List ℕ

-- An insertion into a hash map of the kernel, and whether it took place: `takes` says whether the
-- map, as it is, accepts the key.
abbrev pub Takes : Type 0
Takes = ℕ → Bool

unfoldable pub insert {ℓ} : {V : Type ℓ} → Takes → ℕ → V → Map V → Map V
insert takes k v m = if takes k then put k v m else m

unfoldable pub bump : ℕ → Kernel → Kernel
bump slot k = record k { stats = put slot ((get_or (get slot k.stats) 0 + 1) % 2 ^ 64) k.stats }

unfoldable pub fast_path_armed : Kernel → Bool
fast_path_armed k = not (k.fast_allow_mark == unarmed)

unfoldable pub drop_grant : ℕ → Kernel → Kernel
unfolding fast_path_armed
drop_grant tgid k =
    if fast_path_armed k then record k { fast_allow = remove tgid k.fast_allow } else k

unfoldable pub drop_verdict : ℕ → Kernel → Kernel
drop_verdict tgid k = record k { verdicts = remove tgid k.verdicts }

-- The `match` on the table's entry for the program.
unfoldable pub commit : Takes → ℕ → Option ℕ → Kernel → Kernel
unfolding drop_verdict insert
commit takes tgid none k = drop_verdict tgid k
commit takes tgid (some a) k =
    if a == deny_value
    then record k { verdicts = insert takes tgid deny_value k.verdicts }
    else drop_verdict tgid k

unfoldable pub precommit_verdict : Takes → ℕ → ExecEvent → Kernel → Kernel
unfolding commit drop_verdict
precommit_verdict takes tgid event k =
    if k.exe_rules_on == 0
    then drop_verdict tgid k
    else if event.filename_len == 0 || ltb filename_len_max event.filename_len
    then drop_verdict tgid k
    else commit takes tgid
        (get (hash_exe_path (take event.filename_len event.filename)) k.exe_rules) k

-- The event that `try_exec` has filled in is an argument.
unfoldable pub try_exec : Takes → ExecEvent → Kernel → Kernel
unfolding precommit_verdict drop_grant insert
try_exec takes event k =
    let k' = precommit_verdict takes event.pid event (drop_grant event.pid k) in
    record k' {
      procs = insert takes event.pid event k'.procs;
      exec_events = event ∷ k'.exec_events;
    }

-- `cfc_sched_process_exit`: `gone` is what the record says of the thread group.
unfoldable pub sched_process_exit : Bool → ℕ → ℕ → Kernel → Kernel
unfolding drop_grant
sched_process_exit false tgid tid k =
    let k' = drop_grant tgid k in
    if tgid == tid then record k' { exit_events = tgid ∷ k'.exit_events } else k'
sched_process_exit true tgid tid k =
    let k' =
      drop_grant tgid
        (record k { procs = remove tgid k.procs; verdicts = remove tgid k.verdicts }) in
    record k' { exit_events = tgid ∷ k'.exit_events }
