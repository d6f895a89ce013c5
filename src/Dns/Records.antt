-- ===== src/Dns/Records.antt =====
-- Resource records of crates/cfc-ebpf-proto/src/dns.rs: `parse_answer_at` and `for_each_answer`.
use Prim.Native.Nat.{min}
use colony_firewall_control.Prelude.{
  ℕ, zero, suc, ◌+◌, Bool, true, false, not, ◌&&◌, ◌||◌, Option, none, some, List, [], ◌∷◌, ltb,
  ◌==◌, if◌then◌else◌,
}
use colony_firewall_control.Prelude.Options.{◌>>=◌}
use colony_firewall_control.Packet.{Bytes}
use colony_firewall_control.Dns.{
  max_answers, type_a, type_aaaa, class_in, DnsCursor, u16_at, u32_at, is_response, rcode,
  parse_header, skip_questions,
}
use colony_firewall_control.Dns.Reading.{copy_label, read_name}

-- `is_v6` is a flag; the address is its 4 or 16 bytes.
pub record DnsAnswer : Type 0 where
  pub ip : Bytes
  pub is_v6 : Bool
  pub name : Bytes
  pub ttl : ℕ

-- The address of a record of a class and a type, where it is one.
unfoldable pub address_at : DnsCursor → ℕ → ℕ → ℕ → ℕ → Option (Option (Bool × Bytes))
unfolding copy_label
address_at c rclass rtype rdlength rdata =
    if rclass == class_in && rtype == type_a && rdlength == 4
    then (do ip ← copy_label c rdata 4; some (some (false, ip)))
    else if rclass == class_in && rtype == type_aaaa && rdlength == 16
    then (do ip ← copy_label c rdata 16; some (some (true, ip)))
    else some none

abbrev pub answer_of : Bytes → ℕ → Option (Bool × Bytes) → Option DnsAnswer
answer_of name ttl none = none
answer_of name ttl (some (is_v6, ip)) =
    some (record { ip = ip; is_v6 = is_v6; name = name; ttl = ttl })

-- What a record is once its header is read.
unfoldable pub record_at : DnsCursor → Bytes → ℕ → ℕ → ℕ → ℕ → ℕ → Option (Option DnsAnswer × ℕ)
unfolding address_at
record_at c name after_name rtype rclass ttl rdlength =
    if ltb c.len (after_name + 10 + rdlength) then none else (do
      found ← address_at c rclass rtype rdlength (after_name + 10)
      some (answer_of name ttl found, after_name + 10 + rdlength))

-- The record that starts at an offset, if it is an address, and the offset of the next one.
unfoldable pub parse_answer_at : DnsCursor → ℕ → Option (Option DnsAnswer × ℕ)
unfolding read_name u16_at u32_at record_at
parse_answer_at c off = do
  owner ← read_name c off
  rtype ← u16_at c (owner.1)
  rclass ← u16_at c (owner.1 + 2)
  ttl ← u32_at c (owner.1 + 4)
  rdlength ← u16_at c (owner.1 + 8)
  record_at c owner.0 owner.1 rtype rclass ttl rdlength

-- The loop of `for_each_answer`: the answers that are handed over.
unfoldable pub each_answer : DnsCursor → ℕ → ℕ → List DnsAnswer
unfolding parse_answer_at
each_answer c zero off = []
each_answer c (suc records) off = elim (parse_answer_at c off) [
  | none ↦ []
  | some found ↦
      let rest = each_answer c records found.1 in
      elim found.0 [ none ↦ rest | some answer ↦ answer ∷ rest ]
]

unfoldable pub for_each_answer : DnsCursor → List DnsAnswer
unfolding parse_header is_response rcode skip_questions each_answer
for_each_answer c = elim (parse_header c) [
  | none ↦ []
  | some header ↦
      if not (is_response header) || not (rcode header == 0) || header.ancount == 0
      then []
      else elim (skip_questions c header.qdcount) [
        | none ↦ []
        | some off ↦ each_answer c (min max_answers header.ancount) off
      ]
]
