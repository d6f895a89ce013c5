-- ===== src/Reject/Checksum/Laws.antt =====
-- The checksum of parts is that of their concatenation, its loop ends, and a receiver accepts it.
use colony_firewall_control.Prelude.{
  ℕ, zero, suc, ◌+◌, ◌*◌, ◌/◌, ◌%◌, ◌^◌, ◌≤◌, ◌<◌, ◌≡◌, refl, sym, ap, ◌∙◌, Option, none, some,
  List, [], ◌∷◌, ◌++◌, length, All, arith,
}
use colony_firewall_control.Packet.{Bytes, be16}
use colony_firewall_control.Reject.Checksum.{
  Sum, add32, add_words, add_after, add_part, add_parts, pad, fold_carries, carry_rounds,
  checksum16, complement,
}

-- The parts one after the other.
abbrev pub joined : List Bytes → Bytes
joined [] = []
joined (part ∷ parts) = part ++ joined parts

add_words-append : (sum : ℕ) (a b : Bytes) → add_part (add_words sum a) b ≡ add_words sum (a ++ b)
unfolding add_part add_words add_after
add_words-append sum [] b = refl
add_words-append sum (high ∷ []) [] = refl
add_words-append sum (high ∷ []) (low ∷ b) = refl
add_words-append sum (high ∷ low ∷ a) b = add_words-append (add32 sum (be16 high low)) a b

-- A loop state by its two variables.
abbrev state : ℕ → Option ℕ → Sum
state sum pending = record { sum = sum; pending = pending }

state_append :
    (sum : ℕ) (pending : Option ℕ) (a b : Bytes)
    → add_part (add_part (state sum pending) a) b ≡ add_part (state sum pending) (a ++ b)
unfolding add_part add_after
state_append sum none a b = add_words-append sum a b
state_append sum (some high) [] b = refl
state_append sum (some high) (low ∷ a) b = add_words-append (add32 sum (be16 high low)) a b

add_part-append : (s : Sum) (a b : Bytes) → add_part (add_part s a) b ≡ add_part s (a ++ b)
add_part-append s a b = state_append s.sum s.pending a b

state_nil : (sum : ℕ) (pending : Option ℕ) → add_part (state sum pending) [] ≡ state sum pending
unfolding add_part add_words add_after
state_nil sum none = refl
state_nil sum (some high) = refl

add_part-nil : (s : Sum) → add_part s [] ≡ s
add_part-nil s = state_nil s.sum s.pending

add_parts-joined : (s : Sum) (parts : List Bytes) → add_parts s parts ≡ add_part s (joined parts)
unfolding add_parts
add_parts-joined s [] = sym (add_part-nil s)
add_parts-joined s (part ∷ parts) =
    add_parts-joined (add_part s part) parts ∙ add_part-append s part (joined parts)

-- The checksum of several parts is the checksum of their concatenation, however they are split,
-- odd lengths and empty parts included.
pub checksum16-joined : (parts : List Bytes) → checksum16 parts ≡ checksum16 (joined parts ∷ [])
unfolding checksum16 add_parts
checksum16-joined parts =
    ap (λ s. complement (fold_carries carry_rounds (pad s)))
      (add_parts-joined (record { sum = 0; pending = none }) parts)

-- The words of a buffer, added up without wrap; an odd length is padded with a zero byte.
abbrev pub words : Bytes → ℕ
words [] = 0
words (high ∷ []) = be16 high 0
words (high ∷ low ∷ bytes) = be16 high low + words bytes

abbrev pub IsBytes : Bytes → Type 0
IsBytes = All (λ b. b < 256)

pub words_le : (bytes : Bytes) → IsBytes bytes → words bytes ≤ 65535 * ((length bytes + 1) / 2)
words_le [] h = omega arith
words_le (high ∷ []) h = ground arith
words_le (high ∷ low ∷ bytes) h = ground (arith, words_le bytes)

pub pad-add_words :
    (sum : ℕ) (bytes : Bytes)
    → sum < 2 ^ 32
    → pad (add_words sum bytes) ≡ (sum + words bytes) % 2 ^ 32
unfolding pad add_words
pad-add_words sum [] h = omega arith
pad-add_words sum (high ∷ []) h = refl
pad-add_words sum (high ∷ low ∷ bytes) h =
    omega (arith, pad-add_words (add32 sum (be16 high low)) bytes (omega arith))

fold_carries_small : (rounds sum : ℕ) → sum < 65536 → fold_carries rounds sum ≡ sum
unfolding fold_carries
fold_carries_small zero sum h = refl
fold_carries_small (suc rounds) sum h = ground arith

two_rounds :
    (rounds sum : ℕ)
    → sum < 2 ^ 32
    → (fold_carries (suc (suc rounds)) sum ≡ fold_carries 2 sum) × (fold_carries 2 sum < 65536)
unfolding fold_carries
two_rounds rounds sum h =
    let once = sum % 65536 + sum / 65536 in
    ground (arith, fold_carries_small rounds (once % 65536 + once / 65536))

-- The loop that folds the carries of a `u32` ends after two rounds at most: more rounds change
-- nothing, and the result fits in 16 bits.
pub fold_carries_rounds :
    (rounds sum : ℕ)
    → sum < 2 ^ 32
    → carry_rounds ≤ rounds
    → (fold_carries rounds sum ≡ fold_carries carry_rounds sum)
      × (fold_carries carry_rounds sum < 65536)
fold_carries_rounds (suc (suc rounds)) sum h m = two_rounds rounds sum h
fold_carries_rounds zero sum h m = absurd (omega arith)
fold_carries_rounds (suc zero) sum h m = absurd (omega arith)
