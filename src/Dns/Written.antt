-- ===== src/Dns/Written.antt =====
-- Names as they are written into a message, read back.
use mathlib.Core.Path.{subst}
use colony_firewall_control.Prelude.{
  ℕ, zero, suc, ◌+◌, ◌≤◌, ◌<◌, ◌≡◌, refl, ap, ◌∙◌, false, none, some, List, [], ◌∷◌, ◌++◌, ◌==◌,
  length, length-append, All, arith,
}
use colony_firewall_control.Packet.{Bytes}
use colony_firewall_control.Dns.{DnsCursor, u8_at, max_name_len, max_label_len, max_labels}
use colony_firewall_control.Dns.Reading.{
  Reading, on, copy_label, dotted, dot, read_label, read_round, read_labels, read_name,
}
use colony_firewall_control.Dns.Names.{read_round-byte}

-- The labels of a name, each behind its length, and the zero byte that ends it.
abbrev pub encode : List Bytes → Bytes
encode [] = 0 ∷ []
encode (label ∷ labels) = length label ∷ (label ++ encode labels)

-- The name that is written for labels behind a name.
abbrev pub joined : Bytes → List Bytes → Bytes
joined name [] = name
joined name (label ∷ labels) = joined (dotted name ++ label) labels

abbrev pub IsLabel : Bytes → Type 0
IsLabel label = (0 < length label) × (length label ≤ max_label_len)

-- The message holds the bytes at the offset.
abbrev pub Holds : DnsCursor → ℕ → Bytes → Type 0
Holds c off [] = Unit
Holds c off (b ∷ bs) = (u8_at c off ≡ some b) × Holds c (off + 1) bs

copy_label-Holds :
    (c : DnsCursor) (off : ℕ) (bs rest : Bytes)
    → Holds c off (bs ++ rest)
    → copy_label c off (length bs) ≡ some bs
unfolding copy_label
copy_label-Holds c off [] rest h = refl
copy_label-Holds c off (b ∷ bs) rest (here, later) =
    rw (copy_label, here, copy_label-Holds c (off + 1) bs rest later) refl

Holds-append :
    (c : DnsCursor) (off : ℕ) (bs rest : Bytes)
    → Holds c off (bs ++ rest)
    → Holds c (off + length bs) rest
Holds-append c off [] rest h =
    let same : off ≡ off + 0 = omega arith in subst (λ o. Holds c o rest) same h
Holds-append c off (b ∷ bs) rest (here, later) =
    let same : off + 1 + length bs ≡ off + length (b ∷ bs) = omega arith in
    subst (λ o. Holds c o rest) same (Holds-append c (off + 1) bs rest later)

length-dotted : (name : Bytes) → length name ≤ length (dotted name)
length-dotted [] = omega arith
length-dotted (b ∷ name) = omega (arith, length-append (b ∷ name) (dot ∷ []))

dotted_longer : (name : Bytes) → (length name == 0) ≡ false → length name + 1 ≤ length (dotted name)
dotted_longer [] h = cc
dotted_longer (b ∷ name) h = omega (arith, length-append (b ∷ name) (dot ∷ []))

length-joined : (name : Bytes) (labels : List Bytes) → length name ≤ length (joined name labels)
length-joined name [] = omega arith
length-joined name (label ∷ labels) = omega (
  arith,
  length-joined (dotted name ++ label) labels,
  length-append (dotted name) label,
  length-dotted name,
)

read_label-Holds :
    (c : DnsCursor) (r : Reading) (label rest : Bytes)
    → Holds c (r.off + 1) (label ++ rest)
    → IsLabel label
    → length (dotted r.name ++ label) ≤ max_name_len
    → read_label c r (length label)
      ≡ on (record r { off = r.off + 1 + length label; name = dotted r.name ++ label })
unfolding read_label
read_label-Holds c r label rest h is_label fits = ground (
  arith,
  copy_label-Holds c (r.off + 1) label rest h,
  is_label,
  fits,
  length-append (dotted r.name) label,
  dotted_longer r.name,
)

-- A label that is there and fits is read.
read_round-Holds :
    (c : DnsCursor) (r : Reading) (label rest : Bytes)
    → Holds c r.off (length label ∷ (label ++ rest))
    → IsLabel label
    → length (dotted r.name ++ label) ≤ max_name_len
    → read_round c r
      ≡ on (record r { off = r.off + 1 + length label; name = dotted r.name ++ label })
read_round-Holds c r label rest (here, later) is_label fits = ground (
  arith,
  is_label,
  read_round-byte c r (length label) here,
  read_label-Holds c r label rest later is_label fits,
)

read_labels-on :
    (c : DnsCursor) (labels : ℕ) (r r' : Reading)
    → read_round c r ≡ on r'
    → read_labels c (suc labels) r ≡ read_labels c labels r'
unfolding read_labels
read_labels-on c labels r r' e = rw (read_labels, e) refl

read_labels-ended :
    (c : DnsCursor) (labels : ℕ) (r : Reading)
    → u8_at c r.off ≡ some 0
    → r.next ≡ none
    → read_labels c (suc labels) r ≡ some (r.name, r.off + 1)
unfolding read_labels
read_labels-ended c labels r e h = ground (arith, h, read_round-byte c r 0 e)

read_labels-encode :
    (c : DnsCursor) (rounds : ℕ) (r : Reading) (labels : List Bytes)
    → r.next ≡ none
    → Holds c r.off (encode labels)
    → All IsLabel labels
    → length (joined r.name labels) ≤ max_name_len
    → length labels < rounds
    → read_labels c rounds r ≡ some (joined r.name labels, r.off + length (encode labels))
read_labels-encode c zero r labels next holds are fits room = absurd (omega arith)
read_labels-encode c (suc rounds) r [] next holds are fits room =
    read_labels-ended c rounds r holds.0 next
read_labels-encode c (suc rounds) r (label ∷ labels) next holds (is_label, are) fits room =
    let r' : Reading = record r { off = r.off + 1 + length label; name = dotted r.name ++ label } in
    let read =
      read_round-Holds c r label (encode labels) holds is_label
        (omega (arith, fits, length-joined (dotted r.name ++ label) labels)) in
    let later = Holds-append c (r.off + 1) label (encode labels) holds.1 in
    let rest = read_labels-encode c rounds r' labels next later are fits (omega arith) in
    read_labels-on c rounds r r' read
    ∙ rest
    ∙ ap (λ (n : ℕ). some (joined r'.name labels, n))
        (omega (arith, length-append label (encode labels)))

-- A name of at most 31 labels, of 1 to 63 bytes each, that is written without pointers anywhere in a
-- message is read as its labels with dots between them, if that has at most 253 bytes, and ends
-- behind its zero byte.
pub read_name-encode :
    (c : DnsCursor) (start : ℕ) (labels : List Bytes)
    → Holds c start (encode labels)
    → All IsLabel labels
    → length (joined [] labels) ≤ max_name_len
    → length labels < max_labels
    → read_name c start ≡ some (joined [] labels, start + length (encode labels))
unfolding read_name
read_name-encode c start labels holds are fits few =
    read_labels-encode c max_labels (record { off = start; name = []; jumps = 0; next = none })
      labels refl holds are fits few
