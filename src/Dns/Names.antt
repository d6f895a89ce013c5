-- ===== src/Dns/Names.antt =====
-- Names that are read: how far and how long.
use mathlib.Core.Option.{get_or}
use colony_firewall_control.Prelude.{
  ℕ, zero, suc, ◌+◌, ◌≤◌, ◌<◌, ◌≡◌, refl, ap, none, some, [], ◌==◌, if◌then◌else◌, length,
  length-append, Option-cases, inl, inr, ◌⊎◌, arith,
}
use colony_firewall_control.Packet.{Bytes}
use colony_firewall_control.Dns.{DnsCursor, u8_at, max_name_len, max_labels, is_pointer, is_special}
use colony_firewall_control.Dns.Reading.{
  Reading, Read, failed, ended, on, copy_label, dotted, read_label, follow, read_round, read_labels,
  read_name,
}

pub Read-cases :
    (m : Read)
    → (m ≡ failed)
      ⊎ ((name : Bytes) × (after : ℕ) × (m ≡ ended name after))
      ⊎ ((r : Reading) × (m ≡ on r))
Read-cases failed = inl refl
Read-cases (ended name after) = inr (inl (name, after, refl))
Read-cases (on r) = inr (inr (r, refl))

u8_at_lt : (c : DnsCursor) (off b : ℕ) → u8_at c off ≡ some b → off < c.len
unfolding u8_at
u8_at_lt c off b e = ground (arith, e)

pub copy_label-length :
    (c : DnsCursor) (off n : ℕ) (bs : Bytes) → copy_label c off n ≡ some bs → length bs ≡ n
unfolding copy_label
copy_label-length c off zero bs e = ground (arith, e)
copy_label-length c off (suc n) bs e = elim (Option-cases (copy_label c (off + 1) n)) [
  | inl none_left ↦ absurd (ground (arith, e, none_left))
  | inr (rest, found) ↦ ground (arith, e, found, copy_label-length c (off + 1) n rest found)
]

-- A round over a label steps over it, and what it wrote fits.
pub read_label-on :
    (c : DnsCursor) (r r' : Reading) (n : ℕ)
    → read_label c r n ≡ on r'
    → (length r'.name ≤ max_name_len) × (r'.next ≡ r.next) × (r'.off ≡ r.off + 1 + n)
unfolding read_label
read_label-on c r r' n e = elim (Option-cases (copy_label c (r.off + 1) n)) [
  | inl none_there ↦ absurd (ground (arith, e, none_there))
  | inr (label, found) ↦
      let len = copy_label-length c (r.off + 1) n label found in
      let both = length-append (dotted r.name) label in ground (arith, e, found, len, both)
]

-- A round over a pointer writes nothing, and the name ends behind the first pointer.
pub follow-on :
    (c : DnsCursor) (r r' : Reading) (b : ℕ)
    → follow c r b ≡ on r'
    → (r'.name ≡ r.name) × (r'.next ≡ some (get_or r.next (r.off + 2))) × (r.off + 2 ≤ c.len)
unfolding follow
follow-on c r r' b e = elim (Option-cases (u8_at c (r.off + 1))) [
  | inl none_there ↦ absurd (ground (arith, e, none_there))
  | inr (lo, found) ↦ ground (arith, e, found, u8_at_lt c (r.off + 1) lo found)
]

-- What a round does, by the byte that it reads.
pub read_round-byte :
    (c : DnsCursor) (r : Reading) (b : ℕ)
    → u8_at c r.off ≡ some b
    → read_round c r ≡ (
        if b == 0
        then ended r.name (get_or r.next (r.off + 1))
        else if is_pointer b
        then follow c r b
        else if is_special b
        then failed
        else read_label c r b)
unfolding read_round
read_round-byte c r b e = rw (read_round, e) refl

-- What has been read so far fits, and the end that was found is inside.
abbrev IsInside : DnsCursor → Reading → Type 0
IsInside c r = (length r.name ≤ max_name_len) × (get_or r.next 0 ≤ c.len)

pub read_round-none : (c : DnsCursor) (r : Reading) → u8_at c r.off ≡ none → read_round c r ≡ failed
unfolding read_round
read_round-none c r e = rw (read_round, e) refl

read_round-IsInside :
    (c : DnsCursor) (r r' : Reading) → read_round c r ≡ on r' → IsInside c r → IsInside c r'
read_round-IsInside c r r' e h = elim (Option-cases (u8_at c r.off)) [
  | inl none_there ↦ absurd (ground (arith, e, read_round-none c r none_there))
  | inr (b, found) ↦
      ground (arith, e, h, read_round-byte c r b found, follow-on c r r' b, read_label-on c r r' b)
]

follow-not_ended :
    (c : DnsCursor) (r : Reading) (b : ℕ) (name : Bytes) (after : ℕ)
    → follow c r b ≡ ended name after
    → ⊥
unfolding follow
follow-not_ended c r b name after e = elim (Option-cases (u8_at c (r.off + 1))) [
  | inl none_there ↦ ground (arith, e, none_there)
  | inr (lo, found) ↦ ground (arith, e, found)
]

read_label-not_ended :
    (c : DnsCursor) (r : Reading) (n : ℕ) (name : Bytes) (after : ℕ)
    → read_label c r n ≡ ended name after
    → ⊥
unfolding read_label
read_label-not_ended c r n name after e = elim (Option-cases (copy_label c (r.off + 1) n)) [
  | inl none_there ↦ ground (arith, e, none_there)
  | inr (label, found) ↦ ground (arith, e, found)
]

-- A name ends at a zero byte.
pub read_round-ended :
    (c : DnsCursor) (r : Reading) (name : Bytes) (after : ℕ)
    → read_round c r ≡ ended name after
    → (name ≡ r.name) × (after ≡ get_or r.next (r.off + 1)) × (u8_at c r.off ≡ some 0)
read_round-ended c r name after e = elim (Option-cases (u8_at c r.off)) [
  | inl none_there ↦ absurd (ground (arith, e, read_round-none c r none_there))
  | inr (b, found) ↦ ground (
    arith,
    e,
    found,
    read_round-byte c r b found,
    follow-not_ended c r b name after,
    read_label-not_ended c r b name after,
  )
]

ended-IsInside :
    (c : DnsCursor) (r : Reading) (name : Bytes) (after : ℕ)
    → read_round c r ≡ ended name after
    → IsInside c r
    → (length name ≤ max_name_len) × (after ≤ c.len)
ended-IsInside c r name after e (short, inside) =
    let (same, where_to, zero_there) = read_round-ended c r name after e in
    (
      omega (arith, short, ap length same),
      ground (arith, where_to, inside, u8_at_lt c r.off 0 zero_there),
    )

read_labels-IsInside :
    (c : DnsCursor) (labels : ℕ) (r : Reading) (name : Bytes) (after : ℕ)
    → IsInside c r
    → read_labels c labels r ≡ some (name, after)
    → (length name ≤ max_name_len) × (after ≤ c.len)
unfolding read_labels
read_labels-IsInside c zero r name after h e = cc
read_labels-IsInside c (suc labels) r name after h e = elim (Read-cases (read_round c r)) [
  | inl f ↦ absurd (ground (arith, e, f))
  | inr (inl (name', after', f)) ↦
      let bounds = ended-IsInside c r name' after' f h in ground (arith, e, f, bounds)
  | inr (inr (r', f)) ↦
      read_labels-IsInside c labels r' name after (read_round-IsInside c r r' f h)
        (ground (arith, e, f))
]

-- Whatever the message and the offset, a name that is read has at most 253 bytes, and it ends inside the
-- message.
pub read_name_le :
    (c : DnsCursor) (start : ℕ) (name : Bytes) (after : ℕ)
    → read_name c start ≡ some (name, after)
    → (length name ≤ max_name_len) × (after ≤ c.len)
unfolding read_name
read_name_le c start name after e =
    read_labels-IsInside c max_labels (record { off = start; name = []; jumps = 0; next = none })
      name after (omega arith, omega arith) e
