-- ===== src/Connection.antt =====
-- crates/cfc-core/src/connection.rs: a network flow and its builders.
use colony_firewall_control.Prelude.{ℕ, Bool, true, false, Option, none, some, List, ◌==◌, Text}

pub data Protocol : Type 0 where
  tcp : Protocol
  udp : Protocol
  icmp : Protocol
  other : ℕ → Protocol

pub data Direction : Type 0 where
  outbound inbound : Direction

-- `std::net::IpAddr` by its octets, in network order.
pub data IpAddr : Type 0 where
  v4 : ℕ → ℕ → ℕ → ℕ → IpAddr
  v6 : List ℕ → IpAddr

-- The derived `PartialEq`.
abbrev pub protocol_eq : Protocol → Protocol → Bool
protocol_eq tcp tcp = true
protocol_eq udp udp = true
protocol_eq icmp icmp = true
protocol_eq (other a) (other b) = a == b
protocol_eq _ _ = false

abbrev pub direction_eq : Direction → Direction → Bool
direction_eq outbound outbound = true
direction_eq inbound inbound = true
direction_eq _ _ = false

-- Identifiers are 128-bit numbers, instants are counted in nanoseconds.
pub record Connection : Type 0 where
  pub id : ℕ
  pub timestamp : ℕ
  pub protocol : Protocol
  pub direction : Direction
  pub src_ip : IpAddr
  pub src_port : ℕ
  pub dst_ip : IpAddr
  pub dst_port : ℕ
  pub dst_host : Option Text
  pub dst_host_verified : Bool
  pub pid : Option ℕ
  pub uid : Option ℕ

-- What `Connection::new` draws from outside: a fresh identifier and the current time.
pub record Stamp : Type 0 where
  pub id : ℕ
  pub now : ℕ

unfoldable pub new : Stamp → Protocol → Direction → IpAddr → ℕ → IpAddr → ℕ → Connection
new stamp protocol direction src_ip src_port dst_ip dst_port = record {
  id = stamp.id;
  timestamp = stamp.now;
  protocol = protocol;
  direction = direction;
  src_ip = src_ip;
  src_port = src_port;
  dst_ip = dst_ip;
  dst_port = dst_port;
  dst_host = none;
  dst_host_verified = false;
  pid = none;
  uid = none;
}

unfoldable pub with_process : Connection → ℕ → Option ℕ → Connection
with_process c pid uid = record c { pid = some pid; uid = uid }

unfoldable pub with_host : Connection → Text → Connection
with_host c host = record c { dst_host = some host; dst_host_verified = false }

unfoldable pub with_host_verified : Connection → Text → Bool → Connection
with_host_verified c host verified = record c { dst_host = some host; dst_host_verified = verified }
