-- ===== src/Packet/Directed.antt =====
-- The parser's flows go the way that it is told.
use colony_firewall_control.Prelude.{
  ℕ, zero, suc, ◌*◌, ◌%◌, ◌≡◌, refl, Bool, true, false, not, ◌∷◌, get_elem?, take, drop, ok, err,
  Result-cases, Option-cases, arith, inl, inr,
}
use colony_firewall_control.Connection.{
  new, Connection, Direction, IpAddr, v4, v6, Stamp, direction_eq, outbound, inbound,
}
use colony_firewall_control.Packet.{
  Bytes, Parsed, finalize, parse_ipv4, go_on, done, Round, ext_round, walk_extensions,
  max_ext_headers, parse_ipv6, parse,
}

-- A flow of the other direction.
abbrev strays : Direction → Parsed Connection → Bool
strays d (ok c) = not (direction_eq c.direction d)
strays d (err e) = false

abbrev round_strays : Direction → Parsed Round → Bool
round_strays d (ok (done c)) = not (direction_eq c.direction d)
round_strays d (ok (go_on successor further)) = false
round_strays d (err e) = false

direction_eq_refl : (d : Direction) → direction_eq d d ≡ true
direction_eq_refl outbound = refl
direction_eq_refl inbound = refl

finalize-strays :
    (stamp : Stamp) (src dst : IpAddr) (proto : ℕ) (l4 : Bytes) (d : Direction)
    → strays d (finalize stamp src dst proto l4 d) ≡ false
unfolding finalize new
finalize-strays stamp src dst proto l4 d = ground (arith, direction_eq_refl d)

parse_ipv4-strays :
    (stamp : Stamp) (buf : Bytes) (d : Direction) → strays d (parse_ipv4 stamp buf d) ≡ false
unfolding parse_ipv4
parse_ipv4-strays stamp
      (b0 ∷ b1 ∷ b2 ∷ b3 ∷ b4 ∷ b5 ∷ b6 ∷ b7 ∷ b8 ∷ b9 ∷ b10 ∷ b11 ∷ b12 ∷ b13 ∷ b14 ∷ b15 ∷ b16
        ∷ b17 ∷ b18 ∷ b19 ∷ rest)
      d =
    let buf : Bytes =
      b0 ∷ b1 ∷ b2 ∷ b3 ∷ b4 ∷ b5 ∷ b6 ∷ b7 ∷ b8 ∷ b9 ∷ b10 ∷ b11 ∷ b12 ∷ b13 ∷ b14 ∷ b15 ∷ b16
      ∷ b17 ∷ b18 ∷ b19 ∷ rest in
    ground (
      arith,
      finalize-strays stamp (v4 b12 b13 b14 b15) (v4 b16 b17 b18 b19) b9 (drop (b0 % 16 * 4) buf) d,
    )
parse_ipv4-strays stamp _ d = refl

ext_round-strays :
    (stamp : Stamp) (buf : Bytes) (src dst : IpAddr) (d : Direction) (next_header offset : ℕ)
    → round_strays d (ext_round stamp buf src dst d next_header offset) ≡ false
unfolding ext_round new
ext_round-strays stamp buf src dst d next_header offset =
    ground
      (arith, direction_eq_refl d, finalize-strays stamp src dst next_header (drop offset buf) d)

walk_extensions-strays :
    (stamp : Stamp) (buf : Bytes) (src dst : IpAddr) (d : Direction) (rounds next_header offset : ℕ)
    → strays d (walk_extensions stamp buf src dst d rounds next_header offset) ≡ false
unfolding walk_extensions
walk_extensions-strays stamp buf src dst d zero next_header offset = refl
walk_extensions-strays stamp buf src dst d (suc rounds) next_header offset =
    elim (Result-cases (ext_round stamp buf src dst d next_header offset)) [
      | inl (done c, e) ↦ ground (arith, ext_round-strays stamp buf src dst d next_header offset)
      | inl (go_on successor further, e) ↦
          ground (arith, walk_extensions-strays stamp buf src dst d rounds successor further)
      | inr (x, e) ↦ ground arith
    ]

parse_ipv6-strays :
    (stamp : Stamp) (buf : Bytes) (d : Direction) → strays d (parse_ipv6 stamp buf d) ≡ false
unfolding parse_ipv6
parse_ipv6-strays stamp buf d = elim (Option-cases (get_elem? buf 6)) [
  | inl e ↦ ground arith
  | inr (next, e) ↦ ground (
    arith,
    walk_extensions-strays stamp buf (v6 (take 16 (drop 8 buf))) (v6 (take 16 (drop 24 buf))) d
        (suc max_ext_headers) next 40,
  )
]

eq_of_direction_eq : (a b : Direction) → direction_eq a b ≡ true → a ≡ b
eq_of_direction_eq outbound outbound h = refl
eq_of_direction_eq inbound inbound h = refl
eq_of_direction_eq outbound inbound h = cc
eq_of_direction_eq inbound outbound h = cc

parse-strays :
    (stamp : Stamp) (payload : Bytes) (d : Direction) → strays d (parse stamp payload d) ≡ false
unfolding parse
parse-strays stamp payload d =
    ground (arith, parse_ipv4-strays stamp payload d, parse_ipv6-strays stamp payload d)

pub parse-direction :
    (stamp : Stamp) (payload : Bytes) (d : Direction) (c : Connection)
    → parse stamp payload d ≡ ok c
    → c.direction ≡ d
parse-direction stamp payload d c e =
    eq_of_direction_eq c.direction d (ground (arith, e, parse-strays stamp payload d))
