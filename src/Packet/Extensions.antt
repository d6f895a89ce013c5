-- ===== src/Packet/Extensions.antt =====
-- A packet with IPv6 extension headers, built byte by byte, and what the parser finds behind them.
use mathlib.Core.List.{append_assoc}
use colony_firewall_control.Prelude.{
  ℕ, zero, suc, if◌then◌else◌, leb, Bool-cases, inl, inr, ◌+◌, ◌*◌, ◌≤◌, ◌<◌, ◌≡◌, ◌≢◌, refl, sym,
  ap, ◌∙◌, List, [], ◌∷◌, ◌++◌, All, length, length-append, drop-append, take-append, take, drop,
  ok, err, ◌>>=◌, arith,
}
use colony_firewall_control.Connection.{Direction, IpAddr, v6, Stamp}
use colony_firewall_control.Packet.{
  Bytes, go_on, done, finalize, ext_round, walk_extensions, parse_ipv6, parse, max_ext_headers,
  refused, too_many_extensions,
}

-- A Hop-by-Hop, Routing or Destination Options header: its length in units of eight bytes beyond
-- the first eight, and what follows its first two bytes.
pub data Kind : Type 0 where
  hop_by_hop routing destination : Kind

abbrev pub number : Kind → ℕ
number hop_by_hop = 0
number routing = 43
number destination = 60

pub record Extension : Type 0 where
  pub kind : Kind
  pub units : ℕ
  pub body : Bytes

abbrev pub IsWhole : Extension → Type 0
IsWhole x = length x.body ≡ x.units * 8 + 6

-- The header number that announces a chain before the upper layer `proto`.
abbrev pub announce : List Extension → ℕ → ℕ
announce [] proto = proto
announce (x ∷ xs) proto = number x.kind

abbrev pub encode : List Extension → ℕ → Bytes → Bytes
encode [] proto l4 = l4
encode (x ∷ xs) proto l4 = announce xs proto ∷ x.units ∷ x.body ++ encode xs proto l4

-- The upper layer's number is not one that the walk passes over.
abbrev pub IsUpper : ℕ → Type 0
IsUpper proto = (proto ≢ 0) × (proto ≢ 43) × (proto ≢ 44) × (proto ≢ 51) × (proto ≢ 60)

module _ (stamp : Stamp) (src dst : IpAddr) (d : Direction) where
  -- One header at the offset is passed over, to the header that it announces.
  ext_round-encode :
      (pre : Bytes) (kind : Kind) (successor units : ℕ) (rest : Bytes)
      → units * 8 + 6 ≤ length rest
      → ext_round stamp (pre ++ successor ∷ units ∷ rest) src dst d (number kind) (length pre)
        ≡ ok (go_on successor (length pre + (units + 1) * 8))
  unfolding ext_round
  ext_round-encode pre kind successor units rest h = ground (
    arith,
    drop-append pre (successor ∷ units ∷ rest),
    length-append pre (successor ∷ units ∷ rest),
  )

  ext_round-upper :
      (pre l4 : Bytes) (proto : ℕ)
      → IsUpper proto
      → ext_round stamp (pre ++ l4) src dst d proto (length pre)
        ≡ (do c ← finalize stamp src dst proto l4 d; ok (done c))
  unfolding ext_round
  ext_round-upper pre l4 proto h = ground (arith, drop-append pre l4, length-append pre l4)

  walk_extensions-upper :
      (pre l4 : Bytes) (proto rounds : ℕ)
      → IsUpper proto
      → walk_extensions stamp (pre ++ l4) src dst d (suc rounds) proto (length pre)
        ≡ finalize stamp src dst proto l4 d
  unfolding walk_extensions
  walk_extensions-upper pre l4 proto rounds h = ground (arith, ext_round-upper pre l4 proto h)

  walk_extensions-step :
      (pre : Bytes) (x : Extension) (successor : ℕ) (rest : Bytes) (rounds : ℕ)
      → IsWhole x
      → walk_extensions stamp
          (pre ++ (successor ∷ x.units ∷ (x.body ++ rest)))
          src
          dst
          d
          (suc rounds)
          (number x.kind)
          (length pre)
        ≡ walk_extensions stamp
            ((pre ++ (successor ∷ x.units ∷ x.body)) ++ rest)
            src
            dst
            d
            rounds
            successor
            (length (pre ++ (successor ∷ x.units ∷ x.body)))
  unfolding walk_extensions
  walk_extensions-step pre x successor rest rounds h = ground (
    arith,
    ext_round-encode pre x.kind successor x.units (x.body ++ rest)
        (omega (arith, length-append x.body rest)),
    append_assoc pre (successor ∷ x.units ∷ x.body) rest,
    length-append pre (successor ∷ x.units ∷ x.body),
  )

  walk_extensions-encode :
      (xs : List Extension) (pre l4 : Bytes) (proto rounds : ℕ)
      → length xs < rounds
      → All IsWhole xs
      → IsUpper proto
      → walk_extensions stamp
          (pre ++ encode xs proto l4)
          src
          dst
          d
          rounds
          (announce xs proto)
          (length pre)
        ≡ finalize stamp src dst proto l4 d
  walk_extensions-encode xs pre l4 proto zero h w u = elim h [ ]
  walk_extensions-encode [] pre l4 proto (suc rounds) h w u =
      walk_extensions-upper pre l4 proto rounds u
  walk_extensions-encode (x ∷ xs) pre l4 proto (suc rounds) h w u =
      walk_extensions-step pre x (announce xs proto) (encode xs proto l4) rounds w.0
      ∙ walk_extensions-encode xs (pre ++ announce xs proto ∷ x.units ∷ x.body) l4 proto rounds
          (omega arith) w.1 u

  -- One header too many: the walk gives up.
  walk_extensions-overlong :
      (xs : List Extension) (pre l4 : Bytes) (proto rounds : ℕ)
      → rounds ≤ length xs
      → All IsWhole xs
      → walk_extensions stamp
          (pre ++ encode xs proto l4)
          src
          dst
          d
          rounds
          (announce xs proto)
          (length pre)
        ≡ err (refused too_many_extensions)
  unfolding walk_extensions
  walk_extensions-overlong xs pre l4 proto zero h w = refl
  walk_extensions-overlong [] pre l4 proto (suc rounds) h w = elim h [ ]
  walk_extensions-overlong (x ∷ xs) pre l4 proto (suc rounds) h w =
      walk_extensions-step pre x (announce xs proto) (encode xs proto l4) rounds w.0
      ∙ walk_extensions-overlong xs (pre ++ announce xs proto ∷ x.units ∷ x.body) l4 proto rounds
          (omega arith) w.1

-- The fixed IPv6 header but for its next-header byte: the first byte's low half, five bytes, the
-- hop limit and the addresses.
pub record Ipv6Fields : Type 0 where
  pub traffic : ℕ
  pub b1 : ℕ
  pub b2 : ℕ
  pub b3 : ℕ
  pub b4 : ℕ
  pub b5 : ℕ
  pub hop_limit : ℕ
  pub src : Bytes
  pub dst : Bytes

pub record IsIpv6 (h : Ipv6Fields) : Type 0 where
  pub nibble : h.traffic < 16
  pub src_len : length h.src ≡ 16
  pub dst_len : length h.dst ≡ 16

abbrev fixed : Ipv6Fields → ℕ → Bytes
fixed h next =
    (96 + h.traffic) ∷ h.b1 ∷ h.b2 ∷ h.b3 ∷ h.b4 ∷ h.b5 ∷ next ∷ h.hop_limit ∷ h.src ++ h.dst

-- The packet that carries a chain of extension headers before its upper layer.
abbrev pub ipv6_packet : Ipv6Fields → List Extension → ℕ → Bytes → Bytes
ipv6_packet h xs proto l4 = fixed h (announce xs proto) ++ encode xs proto l4

addresses :
    (src dst rest : Bytes)
    → length src ≡ 16
    → length dst ≡ 16
    → (take 16 ((src ++ dst) ++ rest) ≡ src) × (take 16 (drop 16 ((src ++ dst) ++ rest)) ≡ dst)
addresses src dst rest m n =
    rw (append_assoc, ← m)
      (
        take-append src (dst ++ rest),
        rw drop-append (ap (λ k. take k (dst ++ rest)) (m ∙ sym n) ∙ take-append dst rest),
      )

parse-ipv6_packet :
    (stamp : Stamp) (h : Ipv6Fields) (d : Direction) (next : ℕ) (rest : Bytes)
    → IsIpv6 h
    → parse stamp (fixed h next ++ rest) d
      ≡ walk_extensions stamp
          (fixed h next ++ rest)
          (v6 h.src)
          (v6 h.dst)
          d
          (suc max_ext_headers)
          next
          (length (fixed h next))
unfolding parse parse_ipv6
parse-ipv6_packet stamp h d next rest w =
    let tail : Bytes = (h.src ++ h.dst) ++ rest in
    ground (
      arith,
      addresses h.src h.dst rest w.src_len w.dst_len,
      length-append (h.src ++ h.dst) rest,
      length-append h.src h.dst,
    )

-- Behind up to eight whole Hop-by-Hop, Routing or Destination Options headers of an IPv6 packet the
-- parser reads the announced upper layer as if it stood alone; behind more than eight it gives up
-- with the error for too many extensions.
pub parse-ipv6_extensions :
    (stamp : Stamp) (h : Ipv6Fields) (d : Direction) (xs : List Extension) (proto : ℕ) (l4 : Bytes)
    → IsIpv6 h
    → All IsWhole xs
    → IsUpper proto
    → parse stamp (ipv6_packet h xs proto l4) d ≡ (
        if leb (length xs) 8
        then finalize stamp (v6 h.src) (v6 h.dst) proto l4 d
        else err (refused too_many_extensions))
parse-ipv6_extensions stamp h d xs proto l4 w whole upper =
    let pre : Bytes = fixed h (announce xs proto) in
    parse-ipv6_packet stamp h d (announce xs proto) (encode xs proto l4) w
    ∙ elim (Bool-cases (leb (length xs) 8)) [
      | inl few ↦ rw few (
          walk_extensions-encode stamp (v6 h.src) (v6 h.dst) d xs pre l4 proto (suc max_ext_headers)
            (ground arith) whole upper)
      | inr many ↦ rw many (
          walk_extensions-overlong stamp (v6 h.src) (v6 h.dst) d xs pre l4 proto
            (suc max_ext_headers) (ground arith) whole)
    ]
