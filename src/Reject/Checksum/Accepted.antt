-- ===== src/Reject/Checksum/Accepted.antt =====
-- A message whose checksum field was filled with its own checksum is accepted by a receiver.
use mathlib.Core.List.{append-nil}
use mathlib.Core.Path.{subst}
use colony_firewall_control.Prelude.{
  ℕ, ◌+◌, ◌-◌, ◌/◌, ◌%◌, ◌^◌, ◌<◌, ◌≡◌, sym, ap, ◌∙◌, [], ◌∷◌, ◌++◌, length, arith,
}
use colony_firewall_control.Packet.{Bytes}
use colony_firewall_control.Reject.Checksum.{
  fold_carries, carry_rounds, checksum16, complement, add_parts, add_part,
}
use colony_firewall_control.Reject.Checksum.Laws.{words, pad-add_words, checksum16-joined}

-- The checksum of a total of words.
abbrev pub of_words : ℕ → ℕ
of_words n = complement (fold_carries carry_rounds (n % 2 ^ 32))

zero_add : (n : ℕ) → 0 + n ≡ n
zero_add n = omega arith

pub checksum16-words : (bytes : Bytes) → checksum16 (bytes ∷ []) ≡ of_words (words bytes)
unfolding checksum16 add_parts add_part
checksum16-words bytes =
    ap (λ n. complement (fold_carries carry_rounds n))
      (pad-add_words 0 bytes (omega arith) ∙ ap (λ n. n % 2 ^ 32) (zero_add (words bytes)))

-- RFC 1071: added up with end-around carry, the words of the bytes are all ones. That is a sum
-- other than zero that 65535 divides.
abbrev pub Verifies : Bytes → Type 0
Verifies bytes = (words bytes % 65535 ≡ 0) × (0 < words bytes)

-- The total together with its own checksum is all ones.
cancels : (n : ℕ) → n < 2 ^ 32 - 65536 → ((n + of_words n) % 65535 ≡ 0) × (0 < n + of_words n)
unfolding fold_carries
cancels n h = (ground arith, ground arith)

pub words-append : (a b : Bytes) → length a % 2 ≡ 0 → words (a ++ b) ≡ words a + words b
words-append [] b h = omega arith
words-append (high ∷ []) b h = absurd (omega arith)
words-append (high ∷ low ∷ a) b h = omega (arith, words-append a b (omega arith))

-- A buffer with a word in it after an even number of bytes.
abbrev pub with_word : Bytes → ℕ → Bytes → Bytes
with_word pre word post = pre ++ (word / 256 ∷ word % 256 ∷ post)

words-with_word :
    (pre : Bytes) (word : ℕ) (post : Bytes)
    → length pre % 2 ≡ 0
    → words (with_word pre word post) ≡ words (with_word pre 0 post) + word
words-with_word pre word post even = omega (
  arith,
  words-append pre (word / 256 ∷ word % 256 ∷ post) even,
  words-append pre (0 ∷ 0 ∷ post) even,
)

checksum16_two :
    (before message : Bytes)
    → length before % 2 ≡ 0
    → checksum16 (before ∷ message ∷ []) ≡ of_words (words before + words message)
checksum16_two before message even =
    checksum16-joined (before ∷ message ∷ [])
    ∙ checksum16-words (before ++ (message ++ []))
    ∙ ap of_words (
        words-append before (message ++ []) even
        ∙ ap (λ (m : Bytes). words before + words m) (append-nil message))

-- `before` is what the checksum covers ahead of the message.
pub with_word-Verifies :
    (before pre post : Bytes)
    → length before % 2 ≡ 0
    → length pre % 2 ≡ 0
    → words before + words (with_word pre 0 post) < 2 ^ 32 - 65536
    → Verifies (before ++ with_word pre (checksum16 (before ∷ with_word pre 0 post ∷ [])) post)
with_word-Verifies before pre post even_before even_pre small =
    let sum = checksum16 (before ∷ with_word pre 0 post ∷ []) in
    let total = words before + words (with_word pre 0 post) in
    let same : sum ≡ of_words total = checksum16_two before (with_word pre 0 post) even_before in
    let whole : words (before ++ with_word pre sum post) ≡ total + of_words total = omega (
      arith,
      words-append before (with_word pre sum post) even_before,
      words-with_word pre sum post even_pre,
      same,
    ) in
    subst (λ n. (n % 65535 ≡ 0) × (0 < n)) (sym whole) (cancels total small)
