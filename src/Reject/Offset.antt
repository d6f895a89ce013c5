-- ===== src/Reject/Offset.antt =====
-- crates/cfc-daemon/src/reject.rs: `l4_offset`, where the upper layer of a queued packet starts.
pub mod Agrees
use colony_firewall_control.Prelude.{
  ℕ, zero, suc, ◌+◌, ◌*◌, ◌/◌, ◌%◌, ◌||◌, Option, none, some, ltb, ◌==◌, if◌then◌else◌, length,
  get_elem?,
}
use colony_firewall_control.Packet.{
  Bytes, ipproto_hopopts, ipproto_routing, ipproto_dstopts, ipproto_ah, ipproto_fragment,
  max_ext_headers,
}

-- The length of an extension header, if the number is one: the `match` of the walk.
pub data Length : Type 0 where
  upper : Length
  header : ℕ → Length

unfoldable pub header_len : Bytes → ℕ → ℕ → Option Length
header_len packet next_header offset =
    if next_header == ipproto_hopopts
      || next_header == ipproto_routing
      || next_header == ipproto_dstopts
    then elim (get_elem? packet (offset + 1)) [ none ↦ none | some l ↦ some (header ((l + 1) * 8)) ]
    else if next_header == ipproto_ah
    then elim (get_elem? packet (offset + 1)) [ none ↦ none | some l ↦ some (header ((l + 2) * 4)) ]
    else if next_header == ipproto_fragment
    then some (header 8)
    else some upper

unfoldable pub walk_offset : Bytes → ℕ → ℕ → ℕ → Option ℕ
unfolding header_len
walk_offset packet zero next_header offset = none
walk_offset packet (suc rounds) next_header offset = elim (header_len packet next_header offset) [
  | none ↦ none
  | some l ↦ elim l [
    | upper ↦ some offset
    | header len ↦ elim (get_elem? packet offset) [
      | none ↦ none
      | some successor ↦
          let rest = walk_offset packet rounds successor (offset + len) in
          if ltb (length packet) (offset + len) then none else rest
    ]
  ]
]

unfoldable pub l4_offset_v4 : Bytes → ℕ → Option ℕ
l4_offset_v4 packet first =
    let ihl = first % 16 * 4 in
    if ltb (length packet) 20
    then none
    else if ltb ihl 20 || ltb (length packet) ihl
    then none
    else some ihl

unfoldable pub l4_offset_v6 : Bytes → Option ℕ
unfolding walk_offset
l4_offset_v6 packet = if ltb (length packet) 40 then none else elim (get_elem? packet 6) [
  | none ↦ none
  | some next_header ↦ walk_offset packet (suc max_ext_headers) next_header 40
]

unfoldable pub l4_offset : Bytes → Option ℕ
unfolding l4_offset_v4 l4_offset_v6
l4_offset packet = elim (get_elem? packet 0) [
  | none ↦ none
  | some first ↦
      if first / 16 == 4
      then l4_offset_v4 packet first
      else if first / 16 == 6
      then l4_offset_v6 packet
      else none
]
