-- ===== src/Packet.antt =====
-- crates/cfc-daemon/src/packet.rs: the parser of queued packets. A buffer is the list of its
-- bytes; an index or slice past the end, which panics in the source, is a fault of its own.
pub mod Safe
pub mod Extensions
pub mod Directed
use colony_firewall_control.Prelude.{
  ℕ, zero, suc, ◌+◌, ◌*◌, ◌-◌, ◌/◌, ◌%◌, Bool, ◌||◌, Option, none, some, List, [], ◌∷◌, ltb, ◌==◌,
  if◌then◌else◌, not, length, get_elem?, take, drop, Result, ok, err, ◌>>=◌, ◌>>◌, refuse_if,
}
use colony_firewall_control.Connection
use colony_firewall_control.Connection.{
  Connection, Direction, IpAddr, v4, v6, Protocol, tcp, udp, icmp, other, Stamp,
}

pub data Part : Type 0 where
  ip_version ipv4_header ipv4_header_ihl ipv6_header ipv6_extension ipv6_auth ipv6_fragment : Part
  tcp_ports udp_ports : Part

pub data ParseError : Type 0 where
  truncated : Part → ParseError
  unsupported_version : ℕ → ParseError
  bad_ihl : ℕ → ParseError
  too_many_extensions : ParseError

pub data Fault : Type 0 where
  refused : ParseError → Fault
  panic : Fault

abbrev pub Bytes : Type 0
Bytes = List ℕ

abbrev pub Parsed : Type 0 → Type 0
Parsed = Result Fault

-- `buf[i]`.
unfoldable pub index : Bytes → ℕ → Parsed ℕ
index buf i = elim (get_elem? buf i) [ none ↦ err panic | some b ↦ ok b ]

-- `&buf[from..]`.
unfoldable pub slice_from : Bytes → ℕ → Parsed Bytes
slice_from buf from = if ltb (length buf) from then err panic else ok (drop from buf)

-- `&buf[from..from + n]`.
unfoldable pub slice : Bytes → ℕ → ℕ → Parsed Bytes
slice buf from n = if ltb (length buf) (from + n) then err panic else ok (take n (drop from buf))

-- `buf.get(from..from + n).ok_or(e)?`.
unfoldable pub get_slice : Bytes → ℕ → ℕ → ParseError → Parsed Bytes
get_slice buf from n e =
    if ltb (length buf) (from + n) then err (refused e) else ok (take n (drop from buf))

abbrev pub be16 : ℕ → ℕ → ℕ
be16 hi lo = hi * 256 + lo

abbrev pub ipproto_hopopts : ℕ
ipproto_hopopts = 0

abbrev pub ipproto_icmp : ℕ
ipproto_icmp = 1

abbrev pub ipproto_tcp : ℕ
ipproto_tcp = 6

abbrev pub ipproto_udp : ℕ
ipproto_udp = 17

abbrev pub ipproto_routing : ℕ
ipproto_routing = 43

abbrev pub ipproto_fragment : ℕ
ipproto_fragment = 44

abbrev pub ipproto_ah : ℕ
ipproto_ah = 51

abbrev pub ipproto_icmpv6 : ℕ
ipproto_icmpv6 = 58

abbrev pub ipproto_dstopts : ℕ
ipproto_dstopts = 60

abbrev pub max_ext_headers : ℕ
max_ext_headers = 8

-- The ports of TCP and UDP, at the start of the upper layer.
unfoldable pub ports : Part → Bytes → Parsed (ℕ × ℕ)
unfolding index
ports part l4 = do
  refuse_if (ltb (length l4) 4) (refused (truncated part))
  a ← index l4 0
  b ← index l4 1
  c ← index l4 2
  d ← index l4 3
  ok (be16 a b, be16 c d)

unfoldable pub finalize : Stamp → IpAddr → IpAddr → ℕ → Bytes → Direction → Parsed Connection
unfolding ports
finalize stamp src dst proto l4 direction =
    if proto == ipproto_tcp
    then (do p ← ports tcp_ports l4; ok (Connection.new stamp tcp direction src p.0 dst p.1))
    else if proto == ipproto_udp
    then (do p ← ports udp_ports l4; ok (Connection.new stamp udp direction src p.0 dst p.1))
    else if proto == ipproto_icmp || proto == ipproto_icmpv6
    then ok (Connection.new stamp icmp direction src 0 dst 0)
    else ok (Connection.new stamp (other proto) direction src 0 dst 0)

unfoldable pub parse_ipv4 : Stamp → Bytes → Direction → Parsed Connection
unfolding index slice_from
parse_ipv4 stamp buf direction = do
  refuse_if (ltb (length buf) 20) (refused (truncated ipv4_header))
  first ← index buf 0
  let ihl = first % 16 * 4
  refuse_if (ltb ihl 20) (refused (bad_ihl ihl))
  refuse_if (ltb (length buf) ihl) (refused (truncated ipv4_header_ihl))
  proto ← index buf 9
  s0 ← index buf 12
  s1 ← index buf 13
  s2 ← index buf 14
  s3 ← index buf 15
  d0 ← index buf 16
  d1 ← index buf 17
  d2 ← index buf 18
  d3 ← index buf 19
  payload ← slice_from buf ihl
  finalize stamp (v4 s0 s1 s2 s3) (v4 d0 d1 d2 d3) proto payload direction

-- One round of the walk over the extension headers: it goes on at a header and an offset, or ends.
pub data Round : Type 0 where
  go_on : ℕ → ℕ → Round
  done : Connection → Round

-- A header of `len` bytes with its successor in its first byte.
unfoldable pub skip_header : Bytes → ℕ → Bytes → ℕ → ParseError → Parsed Round
unfolding index
skip_header buf offset hdr len e = do
  refuse_if (ltb (length buf) (offset + len)) (refused e)
  successor ← index hdr 0
  ok (go_on successor (offset + len))

unfoldable pub ext_round : Stamp → Bytes → IpAddr → IpAddr → Direction → ℕ → ℕ → Parsed Round
unfolding index slice_from get_slice skip_header
ext_round stamp buf src dst direction next_header offset =
    if (next_header == ipproto_hopopts
      || next_header == ipproto_routing
      || next_header == ipproto_dstopts)
    then (do
      hdr ← get_slice buf offset 2 (truncated ipv6_extension)
      units ← index hdr 1
      skip_header buf offset hdr ((units + 1) * 8) (truncated ipv6_extension))
    else if next_header == ipproto_ah
    then (do
      hdr ← get_slice buf offset 2 (truncated ipv6_auth)
      units ← index hdr 1
      skip_header buf offset hdr ((units + 2) * 4) (truncated ipv6_auth))
    else if next_header == ipproto_fragment
    then (do
      hdr ← get_slice buf offset 8 (truncated ipv6_fragment)
      hi ← index hdr 2
      lo ← index hdr 3
      successor ← index hdr 0
      if not (be16 hi lo / 8 == 0)
          then ok (done (Connection.new stamp (other ipproto_fragment) direction src 0 dst 0))
          else ok (go_on successor (offset + 8)))
    else (do
      payload ← slice_from buf offset
      c ← finalize stamp src dst next_header payload direction
      ok (done c))

-- `for _ in 0..=MAX_EXT_HEADERS`, over the rounds that are left.
unfoldable pub walk_extensions :
    Stamp → Bytes → IpAddr → IpAddr → Direction → ℕ → ℕ → ℕ → Parsed Connection
walk_extensions stamp buf src dst direction zero next_header offset =
    err (refused too_many_extensions)
walk_extensions stamp buf src dst direction (suc rounds) next_header offset =
    elim (ext_round stamp buf src dst direction next_header offset) [
      | err e ↦ err e
      | ok r ↦ elim r [
        | done c ↦ ok c
        | go_on successor further ↦
            walk_extensions stamp buf src dst direction rounds successor further
      ]
    ]

unfoldable pub parse_ipv6 : Stamp → Bytes → Direction → Parsed Connection
unfolding index slice
parse_ipv6 stamp buf direction = do
  refuse_if (ltb (length buf) 40) (refused (truncated ipv6_header))
  src ← slice buf 8 16
  dst ← slice buf 24 16
  next_header ← index buf 6
  walk_extensions stamp buf (v6 src) (v6 dst) direction (suc max_ext_headers) next_header 40

unfoldable pub parse : Stamp → Bytes → Direction → Parsed Connection
unfolding index
parse stamp payload direction = do
  refuse_if (length payload == 0) (refused (truncated ip_version))
  first ← index payload 0
  if first / 16 == 4
      then parse_ipv4 stamp payload direction
      else if first / 16 == 6
      then parse_ipv6 stamp payload direction
      else err (refused (unsupported_version (first / 16)))
