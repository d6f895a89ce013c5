-- ===== src/Packet/Safe.antt =====
-- The parser never indexes or slices past the end of its buffer.
use colony_firewall_control.Prelude.{
  ℕ, zero, suc, ◌+◌, ◌*◌, ◌%◌, ◌≤◌, ◌<◌, ◌≡◌, ◌≢◌, refl, Bool, true, false, [], ◌∷◌, ltb, is_some,
  length, length-take, length-drop, get_elem?, take, drop, Result, ok, err, Result-cases,
  Option-cases, arith, inl, inr,
}
use colony_firewall_control.Connection.{Direction, IpAddr, v4, v6, Stamp}
use colony_firewall_control.Packet.{
  Part, ParseError, Fault, refused, panic, Bytes, ports, finalize, parse_ipv4, go_on, done,
  skip_header, ext_round, walk_extensions, max_ext_headers, parse_ipv6, parse,
}

abbrev panics {ℓ} : {A : Type ℓ} → Result Fault A → Bool
panics (ok _) = false
panics (err panic) = true
panics (err (refused _)) = false

-- An index is in bounds exactly below the length.
in_bounds : (buf : Bytes) (i : ℕ) → is_some (get_elem? buf i) ≡ ltb i (length buf)
in_bounds [] i = ground arith
in_bounds (b ∷ buf) zero = ground arith
in_bounds (b ∷ buf) (suc i) = ground (arith, in_bounds buf i)

ports_safe : (part : Part) (l4 : Bytes) → panics (ports part l4) ≡ false
unfolding ports
ports_safe part l4 = ground (arith, in_bounds l4 0, in_bounds l4 1, in_bounds l4 2, in_bounds l4 3)

finalize_safe :
    (stamp : Stamp) (src dst : IpAddr) (proto : ℕ) (l4 : Bytes) (d : Direction)
    → panics (finalize stamp src dst proto l4 d) ≡ false
unfolding finalize
finalize_safe stamp src dst proto l4 d =
    ground (arith, ports_safe Part.tcp_ports l4, ports_safe Part.udp_ports l4)

parse_ipv4_safe :
    (stamp : Stamp) (buf : Bytes) (d : Direction) → panics (parse_ipv4 stamp buf d) ≡ false
unfolding parse_ipv4
parse_ipv4_safe stamp
      (b0 ∷ b1 ∷ b2 ∷ b3 ∷ b4 ∷ b5 ∷ b6 ∷ b7 ∷ b8 ∷ b9 ∷ b10 ∷ b11 ∷ b12 ∷ b13 ∷ b14 ∷ b15 ∷ b16
        ∷ b17 ∷ b18 ∷ b19 ∷ rest)
      d =
    let buf : Bytes =
      b0 ∷ b1 ∷ b2 ∷ b3 ∷ b4 ∷ b5 ∷ b6 ∷ b7 ∷ b8 ∷ b9 ∷ b10 ∷ b11 ∷ b12 ∷ b13 ∷ b14 ∷ b15 ∷ b16
      ∷ b17 ∷ b18 ∷ b19 ∷ rest in
    ground (
      arith,
      finalize_safe stamp (v4 b12 b13 b14 b15) (v4 b16 b17 b18 b19) b9 (drop (b0 % 16 * 4) buf) d,
    )
parse_ipv4_safe stamp _ d = refl

-- The slices that are tested first are as long as was asked.
length-slice :
    (buf : Bytes) (from n : ℕ) → from + n ≤ length buf → length (take n (drop from buf)) ≡ n
length-slice buf from n h = length-take n (drop from buf) (omega (arith, length-drop from buf))

skip_header_safe :
    (buf : Bytes) (offset : ℕ) (hdr : Bytes) (len : ℕ) (e : ParseError)
    → 0 < length hdr
    → panics (skip_header buf offset hdr len e) ≡ false
unfolding skip_header
skip_header_safe buf offset hdr len e h = ground (arith, in_bounds hdr 0)

ext_round_safe :
    (stamp : Stamp) (buf : Bytes) (src dst : IpAddr) (d : Direction) (next_header offset : ℕ)
    → offset ≤ length buf
    → panics (ext_round stamp buf src dst d next_header offset) ≡ false
unfolding ext_round
ext_round_safe stamp buf src dst d next_header offset h = ground (
  arith,
  length-slice buf offset 2,
  length-slice buf offset 8,
  in_bounds (take 2 (drop offset buf)) 0,
  in_bounds (take 2 (drop offset buf)) 1,
  in_bounds (take 8 (drop offset buf)) 0,
  in_bounds (take 8 (drop offset buf)) 2,
  in_bounds (take 8 (drop offset buf)) 3,
  finalize_safe stamp src dst next_header (drop offset buf) d,
)

-- A header that is passed over lies inside the buffer.
ext_round-offset :
    (stamp : Stamp) (buf : Bytes) (src dst : IpAddr) (d : Direction)
    (next_header offset successor further : ℕ)
    → ext_round stamp buf src dst d next_header offset ≡ ok (go_on successor further)
    → further ≤ length buf
unfolding ext_round
ext_round-offset stamp buf src dst d next_header offset successor further h = ground arith

walk_extensions_safe :
    (stamp : Stamp) (buf : Bytes) (src dst : IpAddr) (d : Direction) (rounds next_header offset : ℕ)
    → offset ≤ length buf
    → panics (walk_extensions stamp buf src dst d rounds next_header offset) ≡ false
unfolding walk_extensions
walk_extensions_safe stamp buf src dst d zero next_header offset h = refl
walk_extensions_safe stamp buf src dst d (suc rounds) next_header offset h =
    elim (Result-cases (ext_round stamp buf src dst d next_header offset)) [
      | inl (done c, e) ↦ ground arith
      | inl (go_on successor further, e) ↦ ground (
        arith,
        walk_extensions_safe stamp buf src dst d rounds successor further
            (ext_round-offset stamp buf src dst d next_header offset successor further e),
      )
      | inr (x, e) ↦ ground (arith, ext_round_safe stamp buf src dst d next_header offset h)
    ]

parse_ipv6_safe :
    (stamp : Stamp) (buf : Bytes) (d : Direction) → panics (parse_ipv6 stamp buf d) ≡ false
unfolding parse_ipv6
parse_ipv6_safe stamp buf d = elim (Option-cases (get_elem? buf 6)) [
  | inl e ↦ ground (arith, in_bounds buf 6)
  | inr (next, e) ↦ ground (
    arith,
    walk_extensions_safe stamp buf (v6 (take 16 (drop 8 buf))) (v6 (take 16 (drop 24 buf))) d
        (suc max_ext_headers) next 40,
  )
]

-- Whatever bytes a queued packet holds, the parser returns a connection or one of its errors.
pub parse-ne-panic :
    (stamp : Stamp) (payload : Bytes) (d : Direction) → parse stamp payload d ≢ err panic
unfolding parse
parse-ne-panic stamp payload d h =
    ground
      (arith, in_bounds payload 0, parse_ipv4_safe stamp payload d, parse_ipv6_safe stamp payload d)
