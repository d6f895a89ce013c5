-- ===== src/Kernel/Connect.antt =====
-- crates/cfc-ebpf/src/main.rs: the hooks on `connect()`, with the fast path and its socket mark.
pub mod Marked
use colony_firewall_control.Prelude.{
  ℕ, ◌/◌, ◌%◌, ◌^◌, Bool, true, false, not, ◌&&◌, Option, none, some, List, [], ◌∷◌, ◌++◌, map, ltb,
  ◌==◌, if◌then◌else◌, is_some,
}
use colony_firewall_control.Prelude.Maps.{get}
use colony_firewall_control.Kernel.EnforceStat
use colony_firewall_control.Kernel.{Kernel, ConnectReport, bump, deny_value, unarmed}

-- The context of one call, and what the helpers answer in it: whether the mark can be read and set,
-- and whether the rings have room.
pub record Call : Type 0 where
  pub tgid : ℕ
  pub cookie : ℕ
  pub protocol : ℕ
  pub user_port : ℕ
  pub user_ip4 : ℕ
  pub user_ip6 : List ℕ
  pub so_mark : ℕ
  pub readable : Bool
  pub settable : Bool
  pub boot_ns : ℕ
  pub room : Bool

-- The maps and the socket's mark behind the call, and whether `connect()` goes on.
pub record Outcome : Type 0 where
  pub kernel : Kernel
  pub so_mark : ℕ
  pub proceeds : Bool

abbrev pub ipproto_tcp : ℕ
ipproto_tcp = 6

-- `to_ne_bytes`, on the little-endian machines that the package is built for.
abbrev ne_bytes : ℕ → List ℕ
ne_bytes w = w % 256 ∷ w / 256 % 256 ∷ w / 65536 % 256 ∷ w / 2 ^ 24 % 256 ∷ []

abbrev flatten : List (List ℕ) → List ℕ
flatten [] = []
flatten (bytes ∷ rest) = bytes ++ flatten rest

abbrev zeroes : List ℕ
zeroes = 0 ∷ 0 ∷ 0 ∷ 0 ∷ 0 ∷ 0 ∷ 0 ∷ 0 ∷ 0 ∷ 0 ∷ 0 ∷ 0 ∷ []

unfoldable pub report_of : Call → ℕ → ConnectReport
report_of call family = record {
  pid = call.tgid;
  addr =
      if family == 4
      then ne_bytes call.user_ip4 ++ zeroes
      else flatten (map ne_bytes call.user_ip6);
  port = call.user_port % 65536;
  family = family;
  protocol = call.protocol % 256;
}

-- `report_connect`, for each of its two rings.
unfoldable pub report_deny : Call → ℕ → Kernel → Kernel
report_deny call family k =
    if call.room
    then record k { deny_events = report_of call family ∷ k.deny_events }
    else bump EnforceStat.report_dropped k

unfoldable pub report_allow : Call → ℕ → Kernel → Kernel
report_allow call family k =
    if call.room
    then record k { allow_events = report_of call family ∷ k.allow_events }
    else bump EnforceStat.report_dropped k

abbrev pub granted : Call → Kernel → Bool
granted call k = call.protocol == ipproto_tcp && is_some (get call.tgid k.fast_allow)

abbrev pub want : Call → Kernel → ℕ
want call k = if granted call k && ltb call.boot_ns k.fast_allow_until then k.fast_allow_mark else 0

-- The counter at the end of `mark_decision`.
unfoldable pub account : Call → ℕ → Kernel → Kernel
unfolding report_allow
account call family k =
    if not (want call k == 0)
    then report_allow call family (bump EnforceStat.allowed k)
    else if granted call k
    then bump EnforceStat.stale k
    else bump EnforceStat.unknown k

-- `mark_decision`: the maps and the mark of the socket.
unfoldable pub mark_decision : Call → ℕ → Kernel → Kernel × ℕ
unfolding account
mark_decision call family k =
    if k.fast_allow_mark == unarmed
    then (bump EnforceStat.unknown k, call.so_mark)
    else if not call.readable
    then (bump EnforceStat.unknown k, call.so_mark)
    else if not (call.so_mark == 0) && not (call.so_mark == k.fast_allow_mark)
    then (bump EnforceStat.foreign_mark k, call.so_mark)
    else if not (call.so_mark == want call k) && not call.settable
    then (bump EnforceStat.unknown k, call.so_mark)
    else (account call family k, want call k)

abbrev record_pid : Call → Bool → Kernel → Kernel
record_pid call record_cookie k =
    if record_cookie && not (call.cookie == 0)
    then record k { sock_pids = (call.cookie, call.tgid) ∷ k.sock_pids }
    else k

abbrev is_deny : Option ℕ → Bool
is_deny none = false
is_deny (some v) = v == deny_value

unfoldable pub connect_verdict : Call → ℕ → Bool → Kernel → Outcome
unfolding mark_decision report_deny
connect_verdict call family record_cookie k =
    let noted = record_pid call record_cookie k in
    let (marked, so_mark) = mark_decision call family noted in
    if is_deny (get call.tgid noted.verdicts)
    then record {
      kernel = report_deny call family (bump EnforceStat.denied noted);
      so_mark = call.so_mark;
      proceeds = false;
    }
    else if record_cookie
    then record { kernel = marked; so_mark = so_mark; proceeds = true }
    else record { kernel = bump EnforceStat.unknown noted; so_mark = call.so_mark; proceeds = true }

-- The entry points.
pub cfc_connect4 : Call → Kernel → Outcome
cfc_connect4 call k = connect_verdict call 4 true k

pub cfc_connect6 : Call → Kernel → Outcome
cfc_connect6 call k = connect_verdict call 6 true k

pub cfc_connect4_basic : Call → Kernel → Outcome
cfc_connect4_basic call k = connect_verdict call 4 false k

pub cfc_connect6_basic : Call → Kernel → Outcome
cfc_connect6_basic call k = connect_verdict call 6 false k
