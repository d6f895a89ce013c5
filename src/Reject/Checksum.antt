-- ===== src/Reject/Checksum.antt =====
-- crates/cfc-daemon/src/reject.rs: `checksum16`, the one's-complement checksum of RFC 1071.
pub mod Laws
pub mod Accepted
use colony_firewall_control.Prelude.{
  ℕ, zero, suc, ◌+◌, ◌*◌, ◌-◌, ◌/◌, ◌%◌, ◌^◌, Option, none, some, List, [], ◌∷◌, ◌==◌,
  if◌then◌else◌,
}
use colony_firewall_control.Packet.{Bytes, be16}

-- `u32` addition, as a release build does it.
abbrev pub add32 : ℕ → ℕ → ℕ
add32 sum word = (sum + word) % 2 ^ 32

-- The variables of the loop over the parts.
pub record Sum : Type 0 where
  pub sum : ℕ
  pub pending : Option ℕ

-- `as_chunks::<2>()`: the words of a part, and the byte that is left over.
unfoldable pub add_words : ℕ → Bytes → Sum
add_words sum [] = record { sum = sum; pending = none }
add_words sum (high ∷ []) = record { sum = sum; pending = some high }
add_words sum (high ∷ low ∷ bytes) = add_words (add32 sum (be16 high low)) bytes

-- A byte that was left over is the first of the next word.
unfoldable pub add_after : ℕ → ℕ → Bytes → Sum
unfolding add_words
add_after sum high [] = record { sum = sum; pending = some high }
add_after sum high (low ∷ bytes) = add_words (add32 sum (be16 high low)) bytes

unfoldable pub add_part : Sum → Bytes → Sum
unfolding add_words add_after
add_part s bytes = elim s.pending [
  | none ↦ add_words s.sum bytes
  | some high ↦ add_after s.sum high bytes
]

unfoldable pub add_parts : Sum → List Bytes → Sum
unfolding add_part
add_parts s [] = s
add_parts s (bytes ∷ parts) = add_parts (add_part s bytes) parts

-- An odd length is padded with a zero byte.
unfoldable pub pad : Sum → ℕ
pad s = elim s.pending [ none ↦ s.sum | some high ↦ add32 s.sum (be16 high 0) ]

-- `while sum >> 16 != 0`, for at most so many rounds.
unfoldable pub fold_carries : ℕ → ℕ → ℕ
fold_carries zero sum = sum
fold_carries (suc rounds) sum =
    let rest = fold_carries rounds (sum % 65536 + sum / 65536) in
    if sum / 65536 == 0 then sum else rest

-- Two rounds are enough for a `u32` (Checksum/Laws).
abbrev pub carry_rounds : ℕ
carry_rounds = 2

-- `!(sum as u16)`.
abbrev pub complement : ℕ → ℕ
complement sum = 65535 - sum % 65536

unfoldable pub checksum16 : List Bytes → ℕ
unfolding add_parts pad fold_carries
checksum16 parts =
    complement
      (fold_carries carry_rounds (pad (add_parts (record { sum = 0; pending = none }) parts)))
