-- ===== src/Reject/Forge.antt =====
-- crates/cfc-daemon/src/reject.rs: what goes into a refusal, and the packets that carry it. A field
-- is written by its bytes; a buffer that the source fills by ranges is the list of its fields.
pub mod Valid
pub mod Quoted
use Prim.Native.Nat.{min, max}
use colony_firewall_control.Prelude.{
  ℕ, ◌+◌, ◌*◌, ◌-◌, ◌/◌, ◌%◌, ◌^◌, Bool, true, false, Option, none, some, [], ◌∷◌, ◌++◌, ltb, ◌==◌,
  if◌then◌else◌, length, take, drop,
}
use colony_firewall_control.Connection.{IpAddr, v4, v6}
use colony_firewall_control.Packet.{Bytes, ipproto_icmp, ipproto_tcp, ipproto_icmpv6}
use colony_firewall_control.Reject.Checksum.{checksum16}
use colony_firewall_control.Reject.Offset.{l4_offset}

-- `to_be_bytes`, after the cast to the width.
abbrev pub be_bytes16 : ℕ → Bytes
be_bytes16 n = n % 65536 / 256 ∷ n % 256 ∷ []

abbrev pub be_bytes32 : ℕ → Bytes
be_bytes32 n = n % 2 ^ 32 / 2 ^ 24 ∷ n / 65536 % 256 ∷ n / 256 % 256 ∷ n % 256 ∷ []

abbrev pub ipv4_header_len : ℕ
ipv4_header_len = 20

abbrev pub ipv6_header_len : ℕ
ipv6_header_len = 40

abbrev pub tcp_header_len : ℕ
tcp_header_len = 20

abbrev pub icmp_header_len : ℕ
icmp_header_len = 8

abbrev pub tcp_flag_rst : ℕ
tcp_flag_rst = 4

abbrev pub tcp_flag_ack : ℕ
tcp_flag_ack = 16

abbrev pub icmp_dest_unreach : ℕ
icmp_dest_unreach = 3

abbrev pub icmp_code_port_unreach : ℕ
icmp_code_port_unreach = 3

abbrev pub icmpv6_dest_unreach : ℕ
icmpv6_dest_unreach = 1

abbrev pub icmpv6_code_port_unreach : ℕ
icmpv6_code_port_unreach = 4

abbrev pub icmpv4_quote_l4_bytes : ℕ
icmpv4_quote_l4_bytes = 8

abbrev pub ipv6_min_mtu : ℕ
ipv6_min_mtu = 1280

abbrev pub default_ttl : ℕ
default_ttl = 64

pub record RstFields : Type 0 where
  pub seq : ℕ
  pub ack : ℕ
  pub ack_flag : Bool

abbrev pub has_fin : ℕ → Bool
has_fin flags = flags % 2 == 1

abbrev pub has_syn : ℕ → Bool
has_syn flags = flags / 2 % 2 == 1

abbrev pub has_rst : ℕ → Bool
has_rst flags = flags / 4 % 2 == 1

abbrev pub has_ack : ℕ → Bool
has_ack flags = flags / 16 % 2 == 1

-- The fields of a segment's first fourteen bytes: sequence, acknowledgement, data offset, flags.
unfoldable pub answer_segment : ℕ → ℕ → ℕ → ℕ → ℕ → Option RstFields
answer_segment len seq ack offset flags =
    if has_rst flags
    then none
    else if has_ack flags
    then some (record { seq = ack; ack = 0; ack_flag = false })
    else (let data_offset = min (max (offset / 16 * 4) tcp_header_len) len in
        let seg_len =
          (len - data_offset)
          + (if has_syn flags then 1 else 0)
          + (if has_fin flags then 1 else 0) in
        some (record { seq = 0; ack = (seq + seg_len) % 2 ^ 32; ack_flag = true }))

abbrev be32 : ℕ → ℕ → ℕ → ℕ → ℕ
be32 a b c d = a * 2 ^ 24 + b * 65536 + c * 256 + d

unfoldable pub rst_fields : Bytes → Option RstFields
unfolding answer_segment
rst_fields (_ ∷ _ ∷ _ ∷ _ ∷ s0 ∷ s1 ∷ s2 ∷ s3 ∷ a0 ∷ a1 ∷ a2 ∷ a3 ∷ offset ∷ flags ∷ rest) =
    if ltb (length rest + 14) tcp_header_len
    then none
    else answer_segment (length rest + 14) (be32 s0 s1 s2 s3) (be32 a0 a1 a2 a3) offset flags
rst_fields _ = none

-- `buffer[at..at + 2].copy_from_slice(&sum.to_be_bytes())`.
abbrev pub set16 : ℕ → ℕ → Bytes → Bytes
set16 at sum buffer = take at buffer ++ (be_bytes16 sum ++ drop (at + 2) buffer)

abbrev pub rst_flags : Bool → ℕ
rst_flags ack_flag = tcp_flag_rst + (if ack_flag then tcp_flag_ack else 0)

-- A segment without options, its checksum still zero.
unfoldable pub tcp_rst_segment : ℕ → ℕ → RstFields → Bytes
tcp_rst_segment src_port dst_port fields =
    be_bytes16 src_port
    ++ (be_bytes16 dst_port
        ++ (be_bytes32 fields.seq
            ++ (be_bytes32 fields.ack
                ++ (80 ∷ rst_flags fields.ack_flag ∷ 0 ∷ 0 ∷ 0 ∷ 0 ∷ 0 ∷ 0 ∷ []))))

unfoldable pub icmp_error_header : ℕ → ℕ → Bytes
icmp_error_header icmp_type code = icmp_type ∷ code ∷ 0 ∷ 0 ∷ 0 ∷ 0 ∷ 0 ∷ 0 ∷ []

-- An IPv4 address by its octets.
pub record Octets : Type 0 where
  pub a : ℕ
  pub b : ℕ
  pub c : ℕ
  pub d : ℕ

abbrev pub octets : Octets → Bytes
octets o = o.a ∷ o.b ∷ o.c ∷ o.d ∷ []

-- The header before its checksum.
abbrev pub bare_ipv4_header : Octets → Octets → ℕ → ℕ → Bytes
bare_ipv4_header src dst protocol payload_len =
    69 ∷ 0 ∷ be_bytes16 (ipv4_header_len + payload_len)
    ++ (0 ∷ 0 ∷ 64 ∷ 0 ∷ default_ttl ∷ protocol ∷ 0 ∷ 0 ∷ octets src ++ octets dst)

unfoldable pub ipv4_header : Octets → Octets → ℕ → ℕ → Bytes
ipv4_header src dst protocol payload_len =
    let ip = bare_ipv4_header src dst protocol payload_len in set16 10 (checksum16 (ip ∷ [])) ip

unfoldable pub ipv6_header : Bytes → Bytes → ℕ → ℕ → Bytes
ipv6_header src dst next_header payload_len =
    96 ∷ 0 ∷ 0 ∷ 0 ∷ be_bytes16 payload_len ++ (next_header ∷ default_ttl ∷ src ++ dst)

unfoldable pub v4_pseudo_header : Octets → Octets → ℕ → ℕ → Bytes
v4_pseudo_header src dst protocol l4_len =
    octets src ++ (octets dst ++ (0 ∷ protocol ∷ be_bytes16 l4_len))

unfoldable pub v6_pseudo_header : Bytes → Bytes → ℕ → ℕ → Bytes
v6_pseudo_header src dst next_header l4_len =
    src ++ (dst ++ (be_bytes32 l4_len ++ (0 ∷ 0 ∷ 0 ∷ next_header ∷ [])))

-- The two arms of `build_tcp_rst`.
unfoldable pub tcp_rst_v4 : Octets → ℕ → Octets → ℕ → RstFields → Bytes
unfolding tcp_rst_segment ipv4_header v4_pseudo_header
tcp_rst_v4 src src_port dst dst_port fields =
    let tcp = tcp_rst_segment src_port dst_port fields in
    let sum = checksum16 (v4_pseudo_header src dst ipproto_tcp (length tcp) ∷ tcp ∷ []) in
    ipv4_header src dst ipproto_tcp (length tcp) ++ set16 16 sum tcp

unfoldable pub tcp_rst_v6 : Bytes → ℕ → Bytes → ℕ → RstFields → Bytes
unfolding tcp_rst_segment ipv6_header v6_pseudo_header
tcp_rst_v6 src src_port dst dst_port fields =
    let tcp = tcp_rst_segment src_port dst_port fields in
    let sum = checksum16 (v6_pseudo_header src dst ipproto_tcp (length tcp) ∷ tcp ∷ []) in
    ipv6_header src dst ipproto_tcp (length tcp) ++ set16 16 sum tcp

unfoldable pub build_tcp_rst : IpAddr → ℕ → IpAddr → ℕ → RstFields → Option Bytes
build_tcp_rst (v4 a b c d) src_port (v4 a' b' c' d') dst_port fields = some (
    tcp_rst_v4 (record { a = a; b = b; c = c; d = d }) src_port
      (record { a = a'; b = b'; c = c'; d = d' }) dst_port fields)
build_tcp_rst (v6 src) src_port (v6 dst) dst_port fields =
    some (tcp_rst_v6 src src_port dst dst_port fields)
build_tcp_rst _ src_port _ dst_port fields = none

-- The two arms of `build_icmp_port_unreachable`, with what they quote.
unfoldable pub icmp_v4 : Octets → Octets → Bytes → Bytes
unfolding icmp_error_header ipv4_header
icmp_v4 src dst quote =
    let icmp = icmp_error_header icmp_dest_unreach icmp_code_port_unreach ++ quote in
    let sum = checksum16 (icmp ∷ []) in
    ipv4_header src dst ipproto_icmp (length icmp) ++ set16 2 sum icmp

unfoldable pub icmp_v6 : Bytes → Bytes → Bytes → Bytes
unfolding icmp_error_header ipv6_header v6_pseudo_header
icmp_v6 src dst quote =
    let icmp = icmp_error_header icmpv6_dest_unreach icmpv6_code_port_unreach ++ quote in
    let sum = checksum16 (v6_pseudo_header src dst ipproto_icmpv6 (length icmp) ∷ icmp ∷ []) in
    ipv6_header src dst ipproto_icmpv6 (length icmp) ++ set16 2 sum icmp

abbrev pub max_quote : ℕ
max_quote = ipv6_min_mtu - ipv6_header_len - icmp_header_len

-- The IPv4 quotation: the header and eight bytes, if the packet holds them.
unfoldable pub quote_v4 : Bytes → Option Bytes
unfolding l4_offset
quote_v4 original = elim (l4_offset original) [
  | none ↦ none
  | some offset ↦
      if ltb (length original) (offset + icmpv4_quote_l4_bytes)
      then none
      else some (take (offset + icmpv4_quote_l4_bytes) original)
]

unfoldable pub build_icmp_port_unreachable : IpAddr → IpAddr → Bytes → Option Bytes
unfolding quote_v4
build_icmp_port_unreachable (v4 a b c d) (v4 a' b' c' d') original = elim (quote_v4 original) [
  | none ↦ none
  | some quote ↦ some (
      icmp_v4 (record { a = a; b = b; c = c; d = d }) (record { a = a'; b = b'; c = c'; d = d' })
        quote)
]
build_icmp_port_unreachable (v6 src) (v6 dst) original =
    some (icmp_v6 src dst (take (min (length original) max_quote) original))
build_icmp_port_unreachable _ _ original = none
