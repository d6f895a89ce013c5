-- ===== src/Reject.antt =====
-- crates/cfc-daemon/src/reject.rs: the refusals that the daemon injects. Reject/Offset finds the
-- upper layer of the refused packet, Reject/Forge builds the answer, Reject/Checksum sums it, and
-- Reject/Bucket limits what leaves the machine. The raw sockets are their being open; whether the
-- kernel takes a packet is an argument.
pub mod Checksum
pub mod Offset
pub mod Forge
pub mod Bucket
pub mod Sends
use colony_firewall_control.Prelude.{
  ℕ, ◌/◌, Bool, true, false, not, ◌&&◌, ◌||◌, Option, none, some, List, [], ◌∷◌, ◌++◌, leb, ◌==◌,
  if◌then◌else◌, drop,
}
use colony_firewall_control.Connection.{
  Connection, IpAddr, v4, v6, Protocol, tcp, udp, icmp, other, inbound, direction_eq,
}
use colony_firewall_control.Packet.{Bytes}
use colony_firewall_control.Reject.Offset.{l4_offset}
use colony_firewall_control.Reject.Forge.{rst_fields, build_tcp_rst, build_icmp_port_unreachable}
use colony_firewall_control.Reject.Bucket.{Budget, take_at}

pub data RejectOutcome : Type 0 where
  sent unavailable unsupported send_failed rate_limited : RejectOutcome

-- `icmp4` is the IPv4 socket for ICMP, and so on; `packets` is what was handed to the kernel, with
-- where it goes.
pub record Rejecter : Type 0 where
  pub tcp4 : Bool
  pub tcp6 : Bool
  pub icmp4 : Bool
  pub icmp6 : Bool
  pub warned_send_failure : Bool
  pub inbound_budget : Budget
  pub packets : List (IpAddr × Bytes)

-- Neither multicast nor the limited broadcast nor unspecified.
unfoldable pub unicast_v4 : ℕ → ℕ → ℕ → ℕ → Bool
unicast_v4 a b c d = not (
    leb 224 a && leb a 239
    || (a == 255 && b == 255 && c == 255 && d == 255)
    || (a == 0 && b == 0 && c == 0 && d == 0))

abbrev pub all_zero : Bytes → Bool
all_zero [] = true
all_zero (b ∷ bytes) = b == 0 && all_zero bytes

abbrev pub starts_multicast : Bytes → Bool
starts_multicast [] = false
starts_multicast (b ∷ bytes) = b == 255

-- `to_canonical`: an IPv4-mapped address is judged as what it maps.
unfoldable pub unicast_v6 : Bytes → Bool
unfolding unicast_v4
unicast_v6 (b0 ∷ b1 ∷ b2 ∷ b3 ∷ b4 ∷ b5 ∷ b6 ∷ b7 ∷ b8 ∷ b9 ∷ b10 ∷ b11 ∷ a ∷ b ∷ c ∷ d ∷ []) =
    if all_zero (b0 ∷ b1 ∷ b2 ∷ b3 ∷ b4 ∷ b5 ∷ b6 ∷ b7 ∷ b8 ∷ b9 ∷ []) && b10 == 255 && b11 == 255
    then unicast_v4 a b c d
    else not (
        b0 == 255
        || all_zero
            (b0 ∷ b1 ∷ b2 ∷ b3 ∷ b4 ∷ b5 ∷ b6 ∷ b7 ∷ b8 ∷ b9 ∷ b10 ∷ b11 ∷ a ∷ b ∷ c ∷ d ∷ []))
unicast_v6 bytes = not (starts_multicast bytes || all_zero bytes)

unfoldable pub unicast_addressable : IpAddr → Bool
unicast_addressable (v4 a b c d) = unicast_v4 a b c d
unicast_addressable (v6 bytes) = unicast_v6 bytes

-- The kernel's answers to `send_raw`.
abbrev pub Kernel : Type 0
Kernel = IpAddr → Bytes → Bool

unfoldable pub emit : Kernel → Bool → IpAddr → Bytes → Rejecter → Rejecter × RejectOutcome
emit kernel open_socket dst bytes r =
    if not open_socket
    then (r, unavailable)
    else if kernel dst bytes
    then (record r { packets = r.packets ++ ((dst, bytes) ∷ []) }, sent)
    else (record r { warned_send_failure = true }, send_failed)

abbrev pub socket_for : IpAddr → Bool → Bool → Bool
socket_for (v4 _ _ _ _) four six = four
socket_for (v6 _) four six = six

-- The reset for a segment whose header is at hand; nothing where there is none to send.
unfoldable pub tcp_refusal : Connection → Bytes → Option Bytes
tcp_refusal conn original = elim (l4_offset original) [
  | none ↦ none
  | some offset ↦ elim (rst_fields (drop offset original)) [
    | none ↦ none
    | some fields ↦ build_tcp_rst conn.dst_ip conn.dst_port conn.src_ip conn.src_port fields
  ]
]

unfoldable pub reject_tcp : Kernel → Connection → Bytes → Rejecter → Rejecter × RejectOutcome
unfolding tcp_refusal emit
reject_tcp kernel conn original r = elim (tcp_refusal conn original) [
  | none ↦ (r, unsupported)
  | some packet ↦ emit kernel (socket_for conn.src_ip r.tcp4 r.tcp6) conn.src_ip packet r
]

unfoldable pub reject_udp : Kernel → Connection → Bytes → Rejecter → Rejecter × RejectOutcome
unfolding emit
reject_udp kernel conn original r =
    elim (build_icmp_port_unreachable conn.dst_ip conn.src_ip original) [
      | none ↦ (r, unsupported)
      | some packet ↦ emit kernel (socket_for conn.src_ip r.icmp4 r.icmp6) conn.src_ip packet r
    ]

unfoldable pub reject_protocol :
    Kernel → Protocol → Connection → Bytes → Rejecter → Rejecter × RejectOutcome
unfolding reject_tcp reject_udp
reject_protocol kernel tcp conn original r = reject_tcp kernel conn original r
reject_protocol kernel udp conn original r = reject_udp kernel conn original r
reject_protocol kernel icmp conn original r = (r, unsupported)
reject_protocol kernel (other n) conn original r = (r, unsupported)

-- An inbound refusal spends a token first.
unfoldable pub spend_inbound : Connection → ℕ → Rejecter → Rejecter × Bool
unfolding take_at
spend_inbound conn now r =
    let (budget, granted) = take_at now r.inbound_budget in
    if direction_eq conn.direction inbound
    then (record r { inbound_budget = budget }, granted)
    else (r, true)

unfoldable pub reject : Kernel → Connection → Bytes → ℕ → Rejecter → Rejecter × RejectOutcome
unfolding unicast_addressable spend_inbound reject_protocol
reject kernel conn original now r =
    let (spent, granted) = spend_inbound conn now r in
    if not (unicast_addressable conn.src_ip) || not (unicast_addressable conn.dst_ip)
    then (r, unsupported)
    else if not granted
    then (spent, rate_limited)
    else reject_protocol kernel conn.protocol conn original spent
