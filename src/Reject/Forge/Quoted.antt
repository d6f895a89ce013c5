-- ===== src/Reject/Forge/Quoted.antt =====
-- A receiver accepts the refusals that quote the offending datagram, and the families together.
use Prim.Native.Nat.{min}
use mathlib.Core.Path.{subst}
use colony_firewall_control.Prelude.{
  ℕ, zero, suc, ◌+◌, ◌≤◌, ◌≡◌, refl, sym, true, false, none, some, Option, [], ◌∷◌, ◌++◌, length,
  take, drop, arith, Option-cases, inl, inr,
}
use colony_firewall_control.Connection.{IpAddr, v4, v6}
use colony_firewall_control.Packet.{Bytes, ipproto_icmp, ipproto_icmpv6}
use colony_firewall_control.Reject.Checksum.{checksum16}
use colony_firewall_control.Reject.Checksum.Laws.{IsBytes, words_le}
use colony_firewall_control.Reject.Offset.{l4_offset}
use colony_firewall_control.Reject.Forge.{
  RstFields, Octets, octets, ipv4_header, v6_pseudo_header, icmp_v4, icmp_v6, icmp_error_header,
  set16, quote_v4, build_icmp_port_unreachable, build_tcp_rst, max_quote,
}
use colony_firewall_control.Reject.Forge.Valid.{
  filled, filled_alone, ipv4_header-checks, tcp_rst_v4-checks, tcp_rst_v6-checks, IsAddress6,
  words-v6_pseudo_header, length-v6_pseudo_header, ipv6_header-shows, Verifies-behind, addresses4,
  addresses6, pseudo4, pseudo6,
}
use colony_firewall_control.Reject.Checksum.Accepted.{Verifies}

IsBytes-take : (n : ℕ) (bytes : Bytes) → IsBytes bytes → IsBytes (take n bytes)
IsBytes-take zero bytes h = tt
IsBytes-take (suc n) [] h = tt
IsBytes-take (suc n) (b ∷ bytes) h = (h.0, IsBytes-take n bytes h.1)

length-take_le : (n : ℕ) (bytes : Bytes) → length (take n bytes) ≤ length bytes
length-take_le zero bytes = omega arith
length-take_le (suc n) [] = omega arith
length-take_le (suc n) (b ∷ bytes) = omega (arith, length-take_le n bytes)

-- An IP packet is no longer than this.
abbrev pub max_packet : ℕ
max_packet = 65535

icmp_v4-checks :
    (src dst : Octets) (quote : Bytes)
    → IsBytes (octets src)
    → IsBytes (octets dst)
    → IsBytes quote
    → length quote ≤ max_packet
    → let packet = icmp_v4 src dst quote in
      (addresses4 packet ≡ octets src ++ octets dst)
      × (take 1 (drop 9 packet) ≡ 1 ∷ [])
      × Verifies (take 20 packet)
      × Verifies (drop 20 packet)
unfolding icmp_v4 icmp_error_header ipv4_header
icmp_v4-checks src dst quote s d q n = (
  refl,
  refl,
  ipv4_header-checks src dst ipproto_icmp (length (icmp_error_header 3 3 ++ quote)) s d
      (omega arith),
  filled_alone (3 ∷ 3 ∷ []) (0 ∷ 0 ∷ 0 ∷ 0 ∷ quote) refl (omega (arith, words_le quote q)),
)

icmp_v6-checks :
    (src dst : Bytes) (quote : Bytes)
    → IsAddress6 src
    → IsAddress6 dst
    → IsBytes quote
    → length quote ≤ max_packet
    → let packet = icmp_v6 src dst quote in
      (addresses6 packet ≡ src ++ dst)
      × (take 1 (drop 6 packet) ≡ 58 ∷ [])
      × Verifies (pseudo6 58 packet ++ drop 40 packet)
unfolding icmp_v6 icmp_error_header
icmp_v6-checks src dst quote s d q n =
    let icmp = icmp_error_header 1 4 ++ quote in
    let pseudo = v6_pseudo_header src dst ipproto_icmpv6 (length icmp) in
    let message = set16 2 (checksum16 (pseudo ∷ icmp ∷ [])) icmp in
    let (shown, next) = ipv6_header-shows src dst message ipproto_icmpv6 (length icmp) s d in
    (
      shown,
      next,
      Verifies-behind src dst message ipproto_icmpv6 (length icmp) s d (
          filled pseudo (1 ∷ 4 ∷ []) (0 ∷ 0 ∷ 0 ∷ 0 ∷ quote)
            (omega (arith, length-v6_pseudo_header src dst ipproto_icmpv6 (length icmp) s d)) refl
            (omega (
              arith,
              words_le quote q,
              words-v6_pseudo_header src dst ipproto_icmpv6 (length icmp) s d (omega arith),
            ))),
    )

-- The bytes of an address are bytes.
abbrev pub IsAddress : IpAddr → Type 0
IsAddress (v4 a b c d) = IsBytes (a ∷ b ∷ c ∷ d ∷ [])
IsAddress (v6 bytes) = IsAddress6 bytes

-- What a receiver reads in the packet itself: the two addresses, the protocol, and the checksums
-- of RFC 1071, over IPv4 of the header and of the segment under its pseudo-header, over IPv6 of the
-- segment under its pseudo-header.
abbrev pub IsAcceptedTcp : IpAddr → IpAddr → Bytes → Type 0
IsAcceptedTcp (v4 a b c d) (v4 a' b' c' d') packet =
    (addresses4 packet ≡ a ∷ b ∷ c ∷ d ∷ a' ∷ b' ∷ c' ∷ d' ∷ [])
    × (take 1 (drop 9 packet) ≡ 6 ∷ [])
    × Verifies (take 20 packet)
    × Verifies (pseudo4 6 packet ++ drop 20 packet)
IsAcceptedTcp (v6 src) (v6 dst) packet =
    (addresses6 packet ≡ src ++ dst)
    × (take 1 (drop 6 packet) ≡ 6 ∷ [])
    × Verifies (pseudo6 6 packet ++ drop 40 packet)
IsAcceptedTcp _ _ packet = true ≡ false

-- An ICMP error over IPv4 has no pseudo-header.
abbrev pub IsAcceptedIcmp : IpAddr → IpAddr → Bytes → Type 0
IsAcceptedIcmp (v4 a b c d) (v4 a' b' c' d') packet =
    (addresses4 packet ≡ a ∷ b ∷ c ∷ d ∷ a' ∷ b' ∷ c' ∷ d' ∷ [])
    × (take 1 (drop 9 packet) ≡ 1 ∷ [])
    × Verifies (take 20 packet)
    × Verifies (drop 20 packet)
IsAcceptedIcmp (v6 src) (v6 dst) packet =
    (addresses6 packet ≡ src ++ dst)
    × (take 1 (drop 6 packet) ≡ 58 ∷ [])
    × Verifies (pseudo6 58 packet ++ drop 40 packet)
IsAcceptedIcmp _ _ packet = true ≡ false

some_inj {ℓ} : {A : Type ℓ} {a b : A} → some a ≡ some b → a ≡ b
some_inj e = cc e

-- The reset that is built between two addresses of one family is one that a receiver accepts
-- as coming from the one to the other; between two families none is built.
pub build_tcp_rst-IsAcceptedTcp :
    (src : IpAddr) (src_port : ℕ) (dst : IpAddr) (dst_port : ℕ) (fields : RstFields)
    (packet : Bytes)
    → IsAddress src
    → IsAddress dst
    → build_tcp_rst src src_port dst dst_port fields ≡ some packet
    → IsAcceptedTcp src dst packet
unfolding build_tcp_rst
build_tcp_rst-IsAcceptedTcp (v4 a b c d) src_port (v4 a' b' c' d') dst_port fields packet s t e =
    subst (IsAcceptedTcp (v4 a b c d) (v4 a' b' c' d')) (some_inj e)
      (tcp_rst_v4-checks _ src_port _ dst_port fields s t)
build_tcp_rst-IsAcceptedTcp (v6 src) src_port (v6 dst) dst_port fields packet s t e =
    subst (IsAcceptedTcp (v6 src) (v6 dst)) (some_inj e)
      (tcp_rst_v6-checks src src_port dst dst_port fields s t)
build_tcp_rst-IsAcceptedTcp (v4 a b c d) src_port (v6 dst) dst_port fields packet s t e = cc e
build_tcp_rst-IsAcceptedTcp (v6 src) src_port (v4 a b c d) dst_port fields packet s t e = cc e

quote_v4-take :
    (original quote : Bytes) → quote_v4 original ≡ some quote → (n : ℕ) × (quote ≡ take n original)
unfolding quote_v4
quote_v4-take original quote e = elim (Option-cases (l4_offset original)) [
  | inl h ↦ absurd (ground (arith, e))
  | inr (offset, h) ↦ (offset + 8, ground (arith, e))
]

quoted :
    (original : Bytes) (n : ℕ)
    → IsBytes original
    → length original ≤ max_packet
    → IsBytes (take n original) × (length (take n original) ≤ max_packet)
quoted original n b h = (IsBytes-take n original b, omega (arith, length-take_le n original))

-- The same of an IPv4 error, by the octets of its addresses.
abbrev Quotes : Octets → Octets → Bytes → Type 0
Quotes src dst packet =
    (addresses4 packet ≡ octets src ++ octets dst)
    × (take 1 (drop 9 packet) ≡ 1 ∷ [])
    × Verifies (take 20 packet)
    × Verifies (drop 20 packet)

icmp_of_quote :
    (src dst : Octets) (original : Bytes) (o : Option Bytes) (packet : Bytes)
    → quote_v4 original ≡ o
    → IsBytes (octets src)
    → IsBytes (octets dst)
    → IsBytes original
    → length original ≤ max_packet
    → (elim o [ none ↦ none | some quote ↦ some (icmp_v4 src dst quote) ]) ≡ some packet
    → Quotes src dst packet
icmp_of_quote src dst original none packet q s t b h e = cc e
icmp_of_quote src dst original (some quote) packet q s t b h e =
    let (n, same) = quote_v4-take original quote q in
    let (bytes, short) = quoted original n b h in
    let here : IsBytes quote × (length quote ≤ max_packet) =
      subst (λ (m : Bytes). IsBytes m × (length m ≤ max_packet)) (sym same) (bytes, short) in
    subst (Quotes src dst) (some_inj e) (icmp_v4-checks src dst quote s t here.0 here.1)

-- The port-unreachable error that is built between two addresses of one family for a datagram of at
-- most 65535 bytes is one that a receiver accepts as coming from the one to the other;
-- between two families none is built.
pub build_icmp_port_unreachable-IsAcceptedIcmp :
    (src dst : IpAddr) (original packet : Bytes)
    → IsAddress src
    → IsAddress dst
    → IsBytes original
    → length original ≤ max_packet
    → build_icmp_port_unreachable src dst original ≡ some packet
    → IsAcceptedIcmp src dst packet
unfolding build_icmp_port_unreachable
build_icmp_port_unreachable-IsAcceptedIcmp (v4 a b c d) (v4 a' b' c' d') original packet s t o h e =
    icmp_of_quote _ _ original (quote_v4 original) packet refl s t o h e
build_icmp_port_unreachable-IsAcceptedIcmp (v6 src) (v6 dst) original packet s t o h e =
    let (bytes, short) = quoted original (min (length original) max_quote) o h in
    subst (IsAcceptedIcmp (v6 src) (v6 dst)) (some_inj e)
      (icmp_v6-checks src dst (take (min (length original) max_quote) original) s t bytes short)
build_icmp_port_unreachable-IsAcceptedIcmp (v4 a b c d) (v6 dst) original packet s t o h e = cc e
build_icmp_port_unreachable-IsAcceptedIcmp (v6 src) (v4 a b c d) original packet s t o h e = cc e
