-- ===== src/Dns/Reading.antt =====
-- `read_name` of crates/cfc-ebpf-proto/src/dns.rs.
use mathlib.Core.Option.{get_or}
use colony_firewall_control.Prelude.{
  ℕ, zero, suc, ◌+◌, ◌*◌, ◌%◌, not, ◌&&◌, Option, none, some, [], ◌∷◌, ◌++◌, ltb, leb, ◌==◌,
  if◌then◌else◌, length,
}
use colony_firewall_control.Packet.{Bytes}
use colony_firewall_control.Dns.{
  max_name_len, max_label_len, max_labels, max_label_jumps, DnsCursor, u8_at, is_pointer,
  is_special,
}

-- The variables of the loop of `read_name`; `name` is `out[..written]`.
pub record Reading : Type 0 where
  pub off : ℕ
  pub name : Bytes
  pub jumps : ℕ
  pub next : Option ℕ

pub data Read : Type 0 where
  failed : Read
  ended : Bytes → ℕ → Read
  on : Reading → Read

-- The bytes of a label.
unfoldable pub copy_label : DnsCursor → ℕ → ℕ → Option Bytes
unfolding u8_at
copy_label c off zero = some []
copy_label c off (suc n) = elim (u8_at c off) [
  | none ↦ none
  | some b ↦ elim (copy_label c (off + 1) n) [ none ↦ none | some bs ↦ some (b ∷ bs) ]
]

abbrev pub dot : ℕ
dot = 46

-- What is written before a label.
abbrev pub dotted : Bytes → Bytes
dotted [] = []
dotted (b ∷ name) = (b ∷ name) ++ (dot ∷ [])

unfoldable pub read_label : DnsCursor → Reading → ℕ → Read
unfolding copy_label
read_label c r label_len =
    if ltb max_label_len label_len
    then failed
    else if not (length r.name == 0) && leb max_name_len (length r.name)
    then failed
    else if ltb max_name_len (length (dotted r.name) + label_len)
    then failed
    else elim (copy_label c (r.off + 1) label_len) [
      | none ↦ failed
      | some label ↦ on (record r { off = r.off + 1 + label_len; name = dotted r.name ++ label })
    ]

unfoldable pub follow : DnsCursor → Reading → ℕ → Read
unfolding u8_at
follow c r b = if leb max_label_jumps r.jumps then failed else elim (u8_at c (r.off + 1)) [
  | none ↦ failed
  | some lo ↦
      if leb r.off (b % 64 * 256 + lo)
      then failed
      else on (record r {
        off = b % 64 * 256 + lo;
        jumps = r.jumps + 1;
        next = some (get_or r.next (r.off + 2));
      })
]

-- One round of the loop of `read_name`.
unfoldable pub read_round : DnsCursor → Reading → Read
unfolding read_label follow
read_round c r = elim (u8_at c r.off) [
  | none ↦ failed
  | some b ↦
      if b == 0
      then ended r.name (get_or r.next (r.off + 1))
      else if is_pointer b
      then follow c r b
      else if is_special b
      then failed
      else read_label c r b
]

unfoldable pub read_labels : DnsCursor → ℕ → Reading → Option (Bytes × ℕ)
unfolding read_round
read_labels c zero r = none
read_labels c (suc labels) r = elim (read_round c r) [
  | failed ↦ none
  | ended name after ↦ some (name, after)
  | on r' ↦ read_labels c labels r'
]

unfoldable pub read_name : DnsCursor → ℕ → Option (Bytes × ℕ)
unfolding read_labels
read_name c start =
    read_labels c max_labels (record { off = start; name = []; jumps = 0; next = none })
