-- ===== src/Dns/Skipped.antt =====
-- A name that is read and a name that is skipped end at the same offset.
use mathlib.Core.Option.{get_or}
use colony_firewall_control.Prelude.{
  ℕ, zero, suc, ◌+◌, ◌≡◌, refl, ◌∙◌, true, false, none, some, [], ◌==◌, if◌then◌else◌, Bool-cases,
  Option-cases, inl, inr, ◌⊎◌, arith,
}
use colony_firewall_control.Packet.{Bytes}
use colony_firewall_control.Dns.{
  DnsCursor, u8_at, skip_labels, skip_name, max_labels, is_pointer, is_special,
}
use colony_firewall_control.Dns.Reading.{
  Reading, on, read_label, follow, read_round, read_labels, read_name,
}
use colony_firewall_control.Dns.Names.{
  Read-cases, read_label-on, follow-on, read_round-byte, read_round-none, read_round-ended,
}

skip_labels-byte :
    (c : DnsCursor) (labels off b : ℕ)
    → u8_at c off ≡ some b
    → skip_labels c (suc labels) off ≡ (
        if b == 0
        then some (off + 1)
        else if is_pointer b
        then elim (u8_at c (off + 1)) [ none ↦ none | some _ ↦ some (off + 2) ]
        else if is_special b
        then none
        else skip_labels c labels (off + 1 + b))
unfolding skip_labels
skip_labels-byte c labels off b e = rw (skip_labels, e) refl

next_kept :
    (c : DnsCursor) (r r' : Reading) (a : ℕ)
    → read_round c r ≡ on r'
    → r.next ≡ some a
    → r'.next ≡ some a
next_kept c r r' a e h = elim (Option-cases (u8_at c r.off)) [
  | inl none_there ↦ absurd (ground (arith, e, read_round-none c r none_there))
  | inr (b, found) ↦
      ground (arith, e, h, read_round-byte c r b found, follow-on c r r' b, read_label-on c r r' b)
]

-- Once a pointer was followed, the end of the name is settled.
read_labels-next :
    (c : DnsCursor) (labels : ℕ) (r : Reading) (name : Bytes) (after a : ℕ)
    → r.next ≡ some a
    → read_labels c labels r ≡ some (name, after)
    → after ≡ a
unfolding read_labels
read_labels-next c zero r name after a h e = cc
read_labels-next c (suc labels) r name after a h e = elim (Read-cases (read_round c r)) [
  | inl f ↦ absurd (ground (arith, e, f))
  | inr (inl (name', after', f)) ↦
      let (_, where_to, _) = read_round-ended c r name' after' f in
      ground (arith, e, f, where_to, h)
  | inr (inr (r', f)) ↦
      read_labels-next c labels r' name after a (next_kept c r r' a f h) (ground (arith, e, f))
]

read_round-on :
    (c : DnsCursor) (r r' : Reading)
    → read_round c r ≡ on r'
    → ((b : ℕ) × (u8_at c r.off ≡ some b)
        × ((b == 0) ≡ false)
        × (is_pointer b ≡ true)
        × (follow c r b ≡ on r'))
      ⊎ ((b : ℕ) × (u8_at c r.off ≡ some b)
          × ((b == 0) ≡ false)
          × (is_pointer b ≡ false)
          × (is_special b ≡ false)
          × (read_label c r b ≡ on r'))
read_round-on c r r' e = elim (Option-cases (u8_at c r.off)) [
  | inl none_there ↦ absurd (ground (arith, e, read_round-none c r none_there))
  | inr (b, found) ↦
      let byte = read_round-byte c r b found in
      elim (Bool-cases (b == 0)) [
        | inl z ↦ absurd (ground (arith, e, byte, z))
        | inr nonzero ↦ elim (Bool-cases (is_pointer b)) [
          | inl pointer ↦
              inl (b, found, nonzero, pointer, ground (arith, e, byte, nonzero, pointer))
          | inr plain ↦ elim (Bool-cases (is_special b)) [
            | inl special ↦ absurd (ground (arith, e, byte, nonzero, plain, special))
            | inr usual ↦
                inr
                  (b, found, nonzero, plain, usual, ground (arith, e, byte, nonzero, plain, usual))
          ]
        ]
      ]
]

follow-skip :
    (c : DnsCursor) (r r' : Reading) (b : ℕ)
    → follow c r b ≡ on r'
    → (elim (u8_at c (r.off + 1)) [ none ↦ none | some _ ↦ some (r.off + 2) ]) ≡ some (r.off + 2)
unfolding follow
follow-skip c r r' b e = elim (Option-cases (u8_at c (r.off + 1))) [
  | inl none_there ↦ absurd (ground (arith, e, none_there))
  | inr (lo, found) ↦ rw found refl
]

read_labels-skip :
    (c : DnsCursor) (labels : ℕ) (r : Reading) (name : Bytes) (after : ℕ)
    → r.next ≡ none
    → read_labels c labels r ≡ some (name, after)
    → skip_labels c labels r.off ≡ some after
unfolding read_labels
read_labels-skip c zero r name after h e = cc
read_labels-skip c (suc labels) r name after h e = elim (Read-cases (read_round c r)) [
  | inl f ↦ absurd (ground (arith, e, f))
  | inr (inl (name', after', f)) ↦
      let (_, where_to, zero_there) = read_round-ended c r name' after' f in
      ground (arith, e, f, h, where_to, skip_labels-byte c labels r.off 0 zero_there)
  | inr (inr (r', f)) ↦
      let rest : read_labels c labels r' ≡ some (name, after) = ground (arith, e, f) in
      elim (read_round-on c r r' f) [
        | inl (b, found, nonzero, pointer, jump) ↦
            let (_, next, _) = follow-on c r r' b jump in
            let over = follow-skip c r r' b jump in
            let here =
              read_labels-next c labels r' name after (get_or r.next (r.off + 2)) next rest in
            ground (arith, h, here, nonzero, pointer, over, skip_labels-byte c labels r.off b found)
        | inr (b, found, nonzero, plain, usual, step) ↦
            let (_, next, off) = read_label-on c r r' b step in
            let over = read_labels-skip c labels r' name after (next ∙ h) rest in
            ground
              (arith, nonzero, plain, usual, over, off, skip_labels-byte c labels r.off b found)
      ]
]

-- Where a name can be read, it can be skipped, and both end at the same offset.
pub read_name-skip_name :
    (c : DnsCursor) (start : ℕ) (name : Bytes) (after : ℕ)
    → read_name c start ≡ some (name, after)
    → skip_name c start ≡ some after
unfolding read_name skip_name
read_name-skip_name c start name after e =
    read_labels-skip c max_labels (record { off = start; name = []; jumps = 0; next = none }) name
      after refl e
