-- ===== src/Reject/Offset/Agrees.antt =====
-- `l4_offset` and the packet parser agree on where the upper layer starts.
use colony_firewall_control.Prelude.{
  ℕ, zero, suc, ◌+◌, ◌*◌, ◌≤◌, ◌<◌, ◌≡◌, ◌≢◌, inl, inr, refl, true, some, [], ◌∷◌, length,
  get_elem?, take, drop, ok, Result-cases, Option-cases, Bool-cases, ◌/◌, ◌==◌, ◌%◌, arith, ap, ◌∙◌,
}
use colony_firewall_control.Connection
use colony_firewall_control.Connection.{Connection, Direction, IpAddr, v4, v6, Stamp, other}
use colony_firewall_control.Packet.{
  Bytes, go_on, done, finalize, ext_round, walk_extensions, parse_ipv4, parse_ipv6, parse,
  max_ext_headers, ipproto_fragment,
}
use colony_firewall_control.Reject.Offset.{walk_offset, l4_offset, l4_offset_v4, l4_offset_v6}

get_elem?-drop :
    (from i : ℕ) (bytes : Bytes) → get_elem? (drop from bytes) i ≡ get_elem? bytes (from + i)
get_elem?-drop zero i bytes = ap (get_elem? bytes) (omega arith)
get_elem?-drop (suc from) i [] = refl
get_elem?-drop (suc from) i (b ∷ bytes) =
    get_elem?-drop from i bytes
    ∙ ap (λ (k : ℕ). get_elem? (b ∷ bytes) k) {x = suc (from + i)} (omega arith)

get_elem?-take : (n i : ℕ) (bytes : Bytes) → i < n → get_elem? (take n bytes) i ≡ get_elem? bytes i
get_elem?-take zero i bytes h = absurd (omega arith)
get_elem?-take (suc n) i [] h = refl
get_elem?-take (suc n) zero (b ∷ bytes) h = refl
get_elem?-take (suc n) (suc i) (b ∷ bytes) h = get_elem?-take n i bytes (omega arith)

-- An element of a slice.
get_elem?-slice :
    (from n i : ℕ) (bytes : Bytes)
    → i < n
    → get_elem? (take n (drop from bytes)) i ≡ get_elem? bytes (from + i)
get_elem?-slice from n i bytes h =
    get_elem?-take n i (drop from bytes) h ∙ get_elem?-drop from i bytes

at_zero :
    (from n : ℕ) (bytes : Bytes)
    → 0 < n
    → get_elem? (take n (drop from bytes)) 0 ≡ get_elem? bytes from
at_zero from n bytes h = get_elem?-slice from n 0 bytes h ∙ ap (get_elem? bytes) (omega arith)

-- The parser took `proto` at the offset for the upper layer.
abbrev pub ReadsAt : Stamp → Bytes → Direction → Connection → ℕ → Type 0
ReadsAt stamp packet d c offset =
    (src dst : IpAddr) × (proto : ℕ) × (offset ≤ length packet)
    × (finalize stamp src dst proto (drop offset packet) d ≡ ok c)

module _ (stamp : Stamp) (buf : Bytes) (src dst : IpAddr) (d : Direction) where
  round-go_on :
      (next_header offset successor further rounds : ℕ)
      → ext_round stamp buf src dst d next_header offset ≡ ok (go_on successor further)
      → walk_offset buf (suc rounds) next_header offset ≡ walk_offset buf rounds successor further
  unfolding ext_round walk_offset
  round-go_on next_header offset successor further rounds h = ground (
    arith,
    get_elem?-slice offset 2 1 buf (omega arith),
    at_zero offset 2 buf (omega arith),
    at_zero offset 8 buf (omega arith),
    h,
  )

  round-done :
      (next_header offset rounds : ℕ) (c : Connection)
      → c.protocol ≢ other ipproto_fragment
      → ext_round stamp buf src dst d next_header offset ≡ ok (done c)
      → (walk_offset buf (suc rounds) next_header offset ≡ some offset)
        × (offset ≤ length buf)
        × (finalize stamp src dst next_header (drop offset buf) d ≡ ok c)
  unfolding ext_round walk_offset Connection.new
  round-done next_header offset rounds c n h =
      ground (arith, n, Result-cases (finalize stamp src dst next_header (drop offset buf) d), h)

  walk_agrees :
      (rounds next_header offset : ℕ) (c : Connection)
      → c.protocol ≢ other ipproto_fragment
      → walk_extensions stamp buf src dst d rounds next_header offset ≡ ok c
      → (o : ℕ) × (walk_offset buf rounds next_header offset ≡ some o) × ReadsAt stamp buf d c o
  unfolding walk_extensions
  walk_agrees zero next_header offset c n h = cc h
  walk_agrees (suc rounds) next_header offset c n h =
      elim (Result-cases (ext_round stamp buf src dst d next_header offset)) [
        | inr (e, q) ↦ absurd (ground (arith, h, q))
        | inl (go_on successor further, q) ↦
            let (o, found, reads) =
              walk_agrees rounds successor further c n (ground (arith, h, q)) in
            (o, round-go_on next_header offset successor further rounds q ∙ found, reads)
        | inl (done c', q) ↦
            let same : c' ≡ c = ground (arith, h, q) in
            let (found, inside, reads) =
              round-done next_header offset rounds c n (q ∙ ap (λ x. ok (done x)) same) in
            (offset, found, (src, dst, next_header, inside, reads))
      ]

ipv6_agrees :
    (stamp : Stamp) (buf : Bytes) (d : Direction) (c : Connection)
    → c.protocol ≢ other ipproto_fragment
    → parse_ipv6 stamp buf d ≡ ok c
    → (o : ℕ) × (l4_offset_v6 buf ≡ some o) × ReadsAt stamp buf d c o
unfolding parse_ipv6 l4_offset_v6
ipv6_agrees stamp buf d c n h = elim (Option-cases (get_elem? buf 6)) [
  | inl e ↦ absurd (ground (arith, h, e))
  | inr (next_header, e) ↦
      let (o, found, reads) =
        walk_agrees stamp buf (v6 (take 16 (drop 8 buf))) (v6 (take 16 (drop 24 buf))) d
          (suc max_ext_headers) next_header 40 c n (ground (arith, h, e)) in
      (o, ground (arith, h, e, found), reads)
]

ipv4_agrees :
    (stamp : Stamp) (buf : Bytes) (d : Direction) (c : Connection) (first : ℕ)
    → get_elem? buf 0 ≡ some first
    → parse_ipv4 stamp buf d ≡ ok c
    → (o : ℕ) × (l4_offset_v4 buf first ≡ some o) × ReadsAt stamp buf d c o
unfolding parse_ipv4 l4_offset_v4
ipv4_agrees stamp
      (b0 ∷ b1 ∷ b2 ∷ b3 ∷ b4 ∷ b5 ∷ b6 ∷ b7 ∷ b8 ∷ b9 ∷ b10 ∷ b11 ∷ b12 ∷ b13 ∷ b14 ∷ b15 ∷ b16
        ∷ b17 ∷ b18 ∷ b19 ∷ rest)
      d c first e h =
    let buf : Bytes =
      b0 ∷ b1 ∷ b2 ∷ b3 ∷ b4 ∷ b5 ∷ b6 ∷ b7 ∷ b8 ∷ b9 ∷ b10 ∷ b11 ∷ b12 ∷ b13 ∷ b14 ∷ b15 ∷ b16
      ∷ b17 ∷ b18 ∷ b19 ∷ rest in
    let same : b0 ≡ first = ground (arith, e) in
    (
      b0 % 16 * 4,
      ground (arith, same, h),
      (v4 b12 b13 b14 b15, v4 b16 b17 b18 b19, b9, ground (arith, h), ground (arith, h)),
    )
ipv4_agrees stamp _ d c first e h = cc h

-- Wherever the parser finds a connection in a packet, other than a fragment without its upper layer,
-- `l4_offset` finds the place in the packet from which the parser read the ports, so a refusal is
-- made from the same upper-layer header as the verdict.
pub parse-l4_offset :
    (stamp : Stamp) (packet : Bytes) (d : Direction) (c : Connection)
    → parse stamp packet d ≡ ok c
    → c.protocol ≢ other ipproto_fragment
    → (offset : ℕ) × (l4_offset packet ≡ some offset) × ReadsAt stamp packet d c offset
unfolding parse l4_offset
parse-l4_offset stamp packet d c h n = elim (Option-cases (get_elem? packet 0)) [
  | inl e ↦ absurd (ground (arith, h, e))
  | inr (first, e) ↦ elim (Bool-cases (first / 16 == 4)) [
    | inl four ↦
        let (o, found, reads) = ipv4_agrees stamp packet d c first e (ground (arith, h, e, four)) in
        (o, ground (arith, e, four, found), reads)
    | inr not_four ↦
        let six : first / 16 == 6 ≡ true = ground (arith, h, e, not_four) in
        let (o, found, reads) = ipv6_agrees stamp packet d c n (ground (arith, h, e, not_four)) in
        (o, ground (arith, e, not_four, six, found), reads)
  ]
]
