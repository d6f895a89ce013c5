-- ===== src/Reject/Forge/Valid.antt =====
-- A receiver accepts the checksums of every refusal that is built.
use mathlib.Core.Path.{subst}
use mathlib.Core.List.{append_assoc}
use colony_firewall_control.Prelude.{
  ℕ, ◌+◌, ◌-◌, ◌/◌, ◌%◌, ◌^◌, ◌<◌, ◌≡◌, refl, sym, ap, [], ◌∷◌, ◌++◌, length, length-append, take,
  take-append, drop, drop-append, Bool, true, false, arith,
}
use colony_firewall_control.Packet.{Bytes, ipproto_tcp}
use colony_firewall_control.Reject.Checksum.{checksum16, add_parts, add_part, add_words}
use colony_firewall_control.Reject.Checksum.Laws.{words, IsBytes, words_le}
use colony_firewall_control.Reject.Checksum.Accepted.{
  with_word, with_word-Verifies, Verifies, words-append,
}
use colony_firewall_control.Reject.Forge.{
  be_bytes16, be_bytes32, RstFields, tcp_rst_segment, Octets, octets, ipv4_header, ipv6_header,
  v4_pseudo_header, v6_pseudo_header, tcp_rst_v4, tcp_rst_v6, set16, bare_ipv4_header, rst_flags,
}

pub checksum16_lt : (parts : Bytes) (more : Bytes) → checksum16 (parts ∷ more ∷ []) < 65536
unfolding checksum16
checksum16_lt parts more = omega arith

be_bytes16_lt : (n : ℕ) → n < 65536 → be_bytes16 n ≡ n / 256 ∷ n % 256 ∷ []
be_bytes16_lt n h = ap (λ m. m / 256 ∷ n % 256 ∷ []) (omega arith)

-- Filling the checksum as the source does.
pub filled :
    (before pre post : Bytes)
    → length before % 2 ≡ 0
    → length pre % 2 ≡ 0
    → words before + words (with_word pre 0 post) < 2 ^ 32 - 65536
    → Verifies
        (before ++ (pre ++ (be_bytes16 (checksum16 (before ∷ with_word pre 0 post ∷ [])) ++ post)))
filled before pre post even_before even_pre small =
    let sum = checksum16 (before ∷ with_word pre 0 post ∷ []) in
    subst (λ bytes. Verifies (before ++ (pre ++ (bytes ++ post))))
      (sym (be_bytes16_lt sum (checksum16_lt before (with_word pre 0 post))))
      (with_word-Verifies before pre post even_before even_pre small)

one_part : (message : Bytes) → checksum16 ([] ∷ message ∷ []) ≡ checksum16 (message ∷ [])
unfolding checksum16 add_parts add_part add_words
one_part message = refl

-- The same for a message that the checksum covers alone.
pub filled_alone :
    (pre post : Bytes)
    → length pre % 2 ≡ 0
    → words (with_word pre 0 post) < 2 ^ 32 - 65536
    → Verifies (pre ++ (be_bytes16 (checksum16 (with_word pre 0 post ∷ [])) ++ post))
filled_alone pre post even small =
    subst (λ sum. Verifies (pre ++ (be_bytes16 sum ++ post))) (one_part (with_word pre 0 post))
      (filled [] pre post refl even (omega arith))

-- The addresses that an IP header shows, and the pseudo-header that a receiver makes of it for the
-- message behind it.
abbrev pub addresses4 : Bytes → Bytes
addresses4 packet = take 8 (drop 12 packet)

abbrev pub addresses6 : Bytes → Bytes
addresses6 packet = take 32 (drop 8 packet)

abbrev pub pseudo4 : ℕ → Bytes → Bytes
pseudo4 protocol packet = addresses4 packet ++ (0 ∷ protocol ∷ be_bytes16 (length (drop 20 packet)))

abbrev pub pseudo6 : ℕ → Bytes → Bytes
pseudo6 next_header packet =
    addresses6 packet ++ (be_bytes32 (length (drop 40 packet)) ++ (0 ∷ 0 ∷ 0 ∷ next_header ∷ []))

pub ipv4_header-checks :
    (src dst : Octets) (protocol payload_len : ℕ)
    → IsBytes (octets src)
    → IsBytes (octets dst)
    → protocol < 256
    → Verifies (ipv4_header src dst protocol payload_len)
unfolding ipv4_header
ipv4_header-checks src dst protocol payload_len s d p =
    let ip = bare_ipv4_header src dst protocol payload_len in
    filled_alone (take 10 ip) (drop 12 ip) refl (omega arith)

rst_flags_lt : (ack_flag : Bool) → rst_flags ack_flag < 256
rst_flags_lt true = omega arith
rst_flags_lt false = omega arith

pub tcp_rst_v4-checks :
    (src : Octets) (src_port : ℕ) (dst : Octets) (dst_port : ℕ) (fields : RstFields)
    → IsBytes (octets src)
    → IsBytes (octets dst)
    → let packet = tcp_rst_v4 src src_port dst dst_port fields in
      (addresses4 packet ≡ octets src ++ octets dst)
      × (take 1 (drop 9 packet) ≡ 6 ∷ [])
      × Verifies (take 20 packet)
      × Verifies (pseudo4 6 packet ++ drop 20 packet)
unfolding tcp_rst_v4 tcp_rst_segment v4_pseudo_header ipv4_header
tcp_rst_v4-checks src src_port dst dst_port fields s d =
    let segment = tcp_rst_segment src_port dst_port fields in
    let flags = rst_flags_lt fields.ack_flag in
    (
      refl,
      refl,
      ipv4_header-checks src dst ipproto_tcp (length segment) s d (omega arith),
      filled (v4_pseudo_header src dst ipproto_tcp (length segment)) (take 16 segment)
          (drop 18 segment) refl refl (omega (arith, flags)),
    )

abbrev pub IsAddress6 : Bytes → Type 0
IsAddress6 bytes = (length bytes ≡ 16) × IsBytes bytes

pub words-v6_pseudo_header :
    (src dst : Bytes) (next_header l4_len : ℕ)
    → IsAddress6 src
    → IsAddress6 dst
    → next_header < 256
    → words (v6_pseudo_header src dst next_header l4_len) < 2 ^ 24
unfolding v6_pseudo_header
words-v6_pseudo_header src dst next_header l4_len s d n =
    let rest : Bytes = be_bytes32 l4_len ++ (0 ∷ 0 ∷ 0 ∷ next_header ∷ []) in
    omega (
      arith,
      words-append src (dst ++ rest) (omega (arith, s.0)),
      words-append dst rest (omega (arith, d.0)),
      words_le src s.1,
      words_le dst d.1,
      s.0,
      d.0,
    )

pub length-v6_pseudo_header :
    (src dst : Bytes) (next_header l4_len : ℕ)
    → IsAddress6 src
    → IsAddress6 dst
    → length (v6_pseudo_header src dst next_header l4_len) ≡ 40
unfolding v6_pseudo_header
length-v6_pseudo_header src dst next_header l4_len s d =
    let rest : Bytes = be_bytes32 l4_len ++ (0 ∷ 0 ∷ 0 ∷ next_header ∷ []) in
    omega (arith, length-append src (dst ++ rest), length-append dst rest, s.0, d.0)

-- What follows an IPv6 header of 40 bytes.
pub drop-ipv6_header :
    (src dst rest : Bytes) (next_header payload_len : ℕ)
    → IsAddress6 src
    → IsAddress6 dst
    → drop 40 (ipv6_header src dst next_header payload_len ++ rest) ≡ rest
unfolding ipv6_header
drop-ipv6_header src dst rest next_header payload_len s d =
    let ip = ipv6_header src dst next_header payload_len in
    let long : length ip ≡ 40 = omega (arith, length-append src dst, s.0, d.0) in
    subst (λ n. drop n (ip ++ rest) ≡ rest) long (drop-append ip rest)

-- The first bytes of a list, by their number.
take_first : (n : ℕ) (a b : Bytes) → length a ≡ n → take n (a ++ b) ≡ a
take_first n a b e = subst (λ n. take n (a ++ b) ≡ a) e (take-append a b)

-- What an IPv6 header of two addresses shows.
pub ipv6_header-shows :
    (src dst rest : Bytes) (next_header payload_len : ℕ)
    → IsAddress6 src
    → IsAddress6 dst
    → let packet = ipv6_header src dst next_header payload_len ++ rest in
      (addresses6 packet ≡ src ++ dst) × (take 1 (drop 6 packet) ≡ next_header ∷ [])
unfolding ipv6_header
ipv6_header-shows src dst rest next_header payload_len s d =
    (take_first 32 (src ++ dst) rest (omega (arith, length-append src dst, s.0, d.0)), refl)

-- A message behind an IPv6 header, under the pseudo-header that a receiver makes.
pub Verifies-behind :
    (src dst message : Bytes) (next_header payload_len : ℕ)
    → IsAddress6 src
    → IsAddress6 dst
    → Verifies (v6_pseudo_header src dst next_header (length message) ++ message)
    → let packet = ipv6_header src dst next_header payload_len ++ message in
      Verifies (pseudo6 next_header packet ++ drop 40 packet)
unfolding v6_pseudo_header
Verifies-behind src dst message next_header payload_len s d h =
    let (shown, _) = ipv6_header-shows src dst message next_header payload_len s d in
    let behind = drop-ipv6_header src dst message next_header payload_len s d in
    let rest : Bytes = be_bytes32 (length message) ++ (0 ∷ 0 ∷ 0 ∷ next_header ∷ []) in
    rw (shown, behind)
      (subst (λ (pseudo : Bytes). Verifies (pseudo ++ message)) (sym (append_assoc src dst rest)) h)

pub tcp_rst_v6-checks :
    (src : Bytes) (src_port : ℕ) (dst : Bytes) (dst_port : ℕ) (fields : RstFields)
    → IsAddress6 src
    → IsAddress6 dst
    → let packet = tcp_rst_v6 src src_port dst dst_port fields in
      (addresses6 packet ≡ src ++ dst)
      × (take 1 (drop 6 packet) ≡ 6 ∷ [])
      × Verifies (pseudo6 6 packet ++ drop 40 packet)
unfolding tcp_rst_v6 tcp_rst_segment
tcp_rst_v6-checks src src_port dst dst_port fields s d =
    let segment = tcp_rst_segment src_port dst_port fields in
    let flags = rst_flags_lt fields.ack_flag in
    let pseudo = v6_pseudo_header src dst ipproto_tcp (length segment) in
    let message = set16 16 (checksum16 (pseudo ∷ segment ∷ [])) segment in
    let (shown, next) = ipv6_header-shows src dst message ipproto_tcp (length segment) s d in
    (
      shown,
      next,
      Verifies-behind src dst message ipproto_tcp (length segment) s d (
          filled pseudo (take 16 segment) (drop 18 segment)
            (omega (arith, length-v6_pseudo_header src dst ipproto_tcp (length segment) s d)) refl
            (omega (
              arith,
              flags,
              words-v6_pseudo_header src dst ipproto_tcp (length segment) s d (omega arith),
            ))),
    )
