-- ===== src/Dns/Answers.antt =====
-- The answers that are handed over.
use Prim.Native.Nat.{min}
use colony_firewall_control.Prelude.{
  ℕ, zero, suc, ◌+◌, ◌≤◌, ◌≡◌, refl, Bool, not, ◌||◌, Option, none, some, ◌==◌, if◌then◌else◌,
  length, All, Bool-cases, Option-cases, inl, inr, arith,
}
use colony_firewall_control.Prelude.Options.{◌>>=◌}
use colony_firewall_control.Packet.{Bytes}
use colony_firewall_control.Dns.{
  DnsCursor, u16_at, u32_at, max_answers, max_name_len, parse_header, skip_questions, is_response,
  rcode,
}
use colony_firewall_control.Dns.Reading.{read_name}
use colony_firewall_control.Dns.Records.{
  DnsAnswer, address_at, record_at, parse_answer_at, each_answer, for_each_answer,
}
use colony_firewall_control.Dns.Names.{copy_label-length, read_name_le}

-- A name of at most 253 bytes, and an address of the length of its family.
abbrev pub IsAnswer : DnsAnswer → Type 0
IsAnswer a = (length a.name ≤ max_name_len) × (length a.ip ≡ (if a.is_v6 then 16 else 4))

bind-some {ℓ κ} :
    {A : Type ℓ} {B : Type κ} (m : Option A) (f : A → Option B) (b : B)
    → (m >>= f) ≡ some b
    → (a : A) × (m ≡ some a) × (f a ≡ some b)
bind-some none f b e = cc
bind-some (some a) f b e = (a, refl, e)

address_at-length :
    (c : DnsCursor) (rclass rtype rdlength rdata : ℕ) (is_v6 : Bool) (ip : Bytes)
    → address_at c rclass rtype rdlength rdata ≡ some (some (is_v6, ip))
    → length ip ≡ (if is_v6 then 16 else 4)
unfolding address_at
address_at-length c rclass rtype rdlength rdata is_v6 ip e =
    ground (arith, e, copy_label-length c rdata 4 ip, copy_label-length c rdata 16 ip)

record_at-IsAnswer :
    (c : DnsCursor) (name : Bytes) (after rtype rclass ttl rdlength : ℕ) (a : DnsAnswer) (next : ℕ)
    → length name ≤ max_name_len
    → record_at c name after rtype rclass ttl rdlength ≡ some (some a, next)
    → IsAnswer a
unfolding record_at
record_at-IsAnswer c name after rtype rclass ttl rdlength a next short e =
    elim (Option-cases (address_at c rclass rtype rdlength (after + 10))) [
      | inl none_there ↦ absurd (ground (arith, e, none_there))
      | inr (none, found) ↦ absurd (ground (arith, e, found))
      | inr (some (is_v6, ip), found) ↦
          let len = address_at-length c rclass rtype rdlength (after + 10) is_v6 ip found in
          ground (arith, e, found, len, short)
    ]

parse_answer_at-IsAnswer :
    (c : DnsCursor) (off : ℕ) (a : DnsAnswer) (next : ℕ)
    → parse_answer_at c off ≡ some (some a, next)
    → IsAnswer a
unfolding parse_answer_at
parse_answer_at-IsAnswer c off a next e =
    let (owner, read, e1) = bind-some (read_name c off) _ (some a, next) e in
    let (rtype, _, e2) = bind-some (u16_at c owner.1) _ (some a, next) e1 in
    let (rclass, _, e3) = bind-some (u16_at c (owner.1 + 2)) _ (some a, next) e2 in
    let (ttl, _, e4) = bind-some (u32_at c (owner.1 + 4)) _ (some a, next) e3 in
    let (rdlength, _, e5) = bind-some (u16_at c (owner.1 + 8)) _ (some a, next) e4 in
    record_at-IsAnswer c owner.0 owner.1 rtype rclass ttl rdlength a next
      (read_name_le c off owner.0 owner.1 read).0 e5

each_answer-IsAnswer :
    (c : DnsCursor) (records off : ℕ)
    → All IsAnswer (each_answer c records off) × (length (each_answer c records off) ≤ records)
unfolding each_answer
each_answer-IsAnswer c zero off = (tt, omega arith)
each_answer-IsAnswer c (suc records) off = elim (Option-cases (parse_answer_at c off)) [
  | inl e ↦ rw (each_answer, e) (tt, omega arith)
  | inr ((none, next), e) ↦
      let (answers, few) = each_answer-IsAnswer c records next in
      rw (each_answer, e) (answers, omega (arith, few))
  | inr ((some a, next), e) ↦
      let (answers, few) = each_answer-IsAnswer c records next in
      rw (each_answer, e) ((parse_answer_at-IsAnswer c off a next e, answers), omega (arith, few))
]

-- Whatever the message, at most eight answers are handed over, and each has a name of at most 253
-- bytes and an address of four bytes or of sixteen, as its family says.
pub for_each_answer_le :
    (c : DnsCursor) → All IsAnswer (for_each_answer c) × (length (for_each_answer c) ≤ max_answers)
unfolding for_each_answer
for_each_answer_le c = elim (Option-cases (parse_header c)) [
  | inl e ↦ rw (for_each_answer, e) (tt, omega arith)
  | inr (h, e) ↦ elim (Bool-cases (not (is_response h) || not (rcode h == 0) || h.ancount == 0)) [
    | inl skips ↦ rw (for_each_answer, e, skips) (tt, omega arith)
    | inr goes ↦ elim (Option-cases (skip_questions c h.qdcount)) [
      | inl f ↦ rw (for_each_answer, e, goes, f) (tt, omega arith)
      | inr (off, f) ↦
          let (answers, few) = each_answer-IsAnswer c (min max_answers h.ancount) off in
          rw (for_each_answer, e, goes, f) (answers, omega (arith, few))
    ]
  ]
]
