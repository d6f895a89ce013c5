-- ===== src/Wire.antt =====
-- crates/cfc-proto/proto/cfc.proto: the messages about rules. An enumeration is the number that
-- crosses the wire, an i32 by its bit pattern.
use colony_firewall_control.Prelude.{ℕ, Bool, Option, Text}

-- An i64 of milliseconds is counted from the same origin as the instants; `none` is one that lies
-- outside what the chrono crate can hold.
abbrev pub UnixMillis : Type 0
UnixMillis = Option ℕ

pub record RuleScope : Type 0 where
  pub exe_path : Text
  pub exe_sha256 : Text
  pub parent_exe : Text
  pub uid : ℕ
  pub has_uid : Bool
  pub dst_host : Text
  pub dst_net : Text
  pub dst_port : ℕ
  pub has_dst_port : Bool
  pub protocol : ℕ
  pub has_protocol : Bool
  pub direction : ℕ
  pub has_direction : Bool
  pub src_net : Text
  pub src_port : ℕ
  pub has_src_port : Bool

pub record RuleInfo : Type 0 where
  pub id : Text
  pub name : Text
  pub enabled : Bool
  pub action : ℕ
  pub duration : ℕ
  pub scope : Option RuleScope
  pub created_at_unix_ms : UnixMillis
  pub hit_count : ℕ
  pub duration_seconds : ℕ

-- The values of the enumerations; zero is `UNSPECIFIED` in each.
abbrev pub action_allow : ℕ
action_allow = 1

abbrev pub action_deny : ℕ
action_deny = 2

abbrev pub action_reject : ℕ
action_reject = 3

abbrev pub duration_once : ℕ
duration_once = 1

abbrev pub duration_until_restart : ℕ
duration_until_restart = 2

abbrev pub duration_always : ℕ
duration_always = 3

abbrev pub duration_seconds_value : ℕ
duration_seconds_value = 4

abbrev pub protocol_tcp : ℕ
protocol_tcp = 1

abbrev pub protocol_udp : ℕ
protocol_udp = 2

abbrev pub protocol_icmp : ℕ
protocol_icmp = 3

abbrev pub protocol_other : ℕ
protocol_other = 4

abbrev pub direction_outbound : ℕ
direction_outbound = 1

abbrev pub direction_inbound : ℕ
direction_inbound = 2
