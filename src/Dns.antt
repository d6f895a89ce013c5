-- ===== src/Dns.antt =====
-- crates/cfc-ebpf-proto/src/dns.rs: the parser of observed DNS responses. A name is the list of the
-- bytes that were written to the buffer for it; what the buffer held behind them is never read.
pub mod Reading
pub mod Records
pub mod Names
pub mod Answers
pub mod Written
pub mod Skipped
use mathlib.Core.Option.{get_or}
use Prim.Native.Nat.{min}
use colony_firewall_control.Prelude.{
  ℕ, zero, suc, ◌+◌, ◌*◌, ◌-◌, ◌/◌, ◌%◌, Bool, true, false, not, ◌&&◌, ◌||◌, Option, none, some,
  List, [], ◌∷◌, ◌++◌, ltb, leb, ◌==◌, if◌then◌else◌, length, get_elem?,
}
use colony_firewall_control.Prelude.Options.{◌>>=◌}
use colony_firewall_control.Packet.{Bytes, be16}

abbrev pub dns_header_len : ℕ
dns_header_len = 12

abbrev pub max_name_len : ℕ
max_name_len = 253

abbrev pub max_label_len : ℕ
max_label_len = 63

abbrev pub max_labels : ℕ
max_labels = 32

abbrev pub max_label_jumps : ℕ
max_label_jumps = 4

abbrev pub max_answers : ℕ
max_answers = 8

abbrev pub max_questions : ℕ
max_questions = 4

abbrev pub type_a : ℕ
type_a = 1

abbrev pub type_aaaa : ℕ
type_aaaa = 28

abbrev pub class_in : ℕ
class_in = 1

pub record DnsCursor : Type 0 where
  pub buf : Bytes
  pub base : ℕ
  pub len : ℕ

unfoldable pub with_base : Bytes → ℕ → ℕ → DnsCursor
with_base buf base len = record { buf = buf; base = base; len = min len (length buf - base) }

unfoldable pub new : Bytes → DnsCursor
unfolding with_base
new buf = with_base buf 0 (length buf)

unfoldable pub u8_at : DnsCursor → ℕ → Option ℕ
u8_at c off = if leb c.len off then none else get_elem? c.buf (c.base + off)

unfoldable pub u16_at : DnsCursor → ℕ → Option ℕ
unfolding u8_at
u16_at c off = do hi ← u8_at c off; lo ← u8_at c (off + 1); some (be16 hi lo)

unfoldable pub u32_at : DnsCursor → ℕ → Option ℕ
unfolding u16_at
u32_at c off = do hi ← u16_at c off; lo ← u16_at c (off + 2); some (hi * 65536 + lo)

pub record DnsHeader : Type 0 where
  pub id : ℕ
  pub flags : ℕ
  pub qdcount : ℕ
  pub ancount : ℕ
  pub nscount : ℕ
  pub arcount : ℕ

unfoldable pub is_response : DnsHeader → Bool
is_response h = h.flags / 32768 % 2 == 1

unfoldable pub is_truncated : DnsHeader → Bool
is_truncated h = h.flags / 512 % 2 == 1

unfoldable pub rcode : DnsHeader → ℕ
rcode h = h.flags % 16

unfoldable pub parse_header : DnsCursor → Option DnsHeader
unfolding u16_at
parse_header c = do
  id ← u16_at c 0
  flags ← u16_at c 2
  qdcount ← u16_at c 4
  ancount ← u16_at c 6
  nscount ← u16_at c 8
  arcount ← u16_at c 10
  some (record {
    id = id;
    flags = flags;
    qdcount = qdcount;
    ancount = ancount;
    nscount = nscount;
    arcount = arcount;
  })

-- `b & PTR_MASK == PTR_MASK`, and `b & PTR_MASK != 0`.
abbrev pub is_pointer : ℕ → Bool
is_pointer b = b / 64 % 4 == 3

abbrev pub is_special : ℕ → Bool
is_special b = not (b / 64 % 4 == 0)

-- The loop of `skip_name`, over the labels that are left.
unfoldable pub skip_labels : DnsCursor → ℕ → ℕ → Option ℕ
unfolding u8_at
skip_labels c zero off = none
skip_labels c (suc labels) off = elim (u8_at c off) [
  | none ↦ none
  | some b ↦
      let rest = skip_labels c labels (off + 1 + b) in
      if b == 0
      then some (off + 1)
      else if is_pointer b
      then elim (u8_at c (off + 1)) [ none ↦ none | some _ ↦ some (off + 2) ]
      else if is_special b
      then none
      else rest
]

unfoldable pub skip_name : DnsCursor → ℕ → Option ℕ
unfolding skip_labels
skip_name c start = skip_labels c max_labels start

-- A question behind a name: its type and its class.
unfoldable pub skip_question : DnsCursor → ℕ → Option ℕ
unfolding skip_name u16_at
skip_question c off = do
  after ← skip_name c off
  _ ← u16_at c after
  _ ← u16_at c (after + 2)
  some (after + 4)

unfoldable pub skip_each : DnsCursor → ℕ → ℕ → Option ℕ
unfolding skip_question
skip_each c zero off = some off
skip_each c (suc questions) off = elim (skip_question c off) [
  | none ↦ none
  | some next ↦ skip_each c questions next
]

unfoldable pub skip_questions : DnsCursor → ℕ → Option ℕ
unfolding skip_each
skip_questions c qdcount =
    if ltb max_questions qdcount then none else skip_each c qdcount dns_header_len
