-- ===== src/Rule/Digest/Canonical.antt =====
-- The digests that `canonical_exe_sha256` lets through.
use mathlib.Core.List.{reverse, reverse-reverse, reverse-append}
use colony_firewall_control.Prelude.{
  ℕ, ◌≡◌, refl, ap, ◌∙◌, Bool, true, false, not, ◌&&◌, ◌||◌, none, [], ◌∷◌, ◌++◌, map, find, All,
  leb, length, Text, ok, arith,
}
use colony_firewall_control.Rule.Digest.{
  is_whitespace, trim_start, trim, lower, to_ascii_lowercase, byte_len, is_ascii_hexdigit,
  check_digest, canonical_exe_sha256,
}

-- A digit or a lowercase letter up to f.
abbrev pub is_lower_hex : ℕ → Bool
is_lower_hex c = leb b'0' c && leb c b'9' || leb b'a' c && leb c b'f'

abbrev pub IsLowerHex : Text → Type 0
IsLowerHex = All (λ c. is_lower_hex c ≡ true)

lower-IsLowerHex : (c : ℕ) → is_ascii_hexdigit (lower c) ≡ true → is_lower_hex (lower c) ≡ true
unfolding lower is_ascii_hexdigit
lower-IsLowerHex c h = ground arith

lowered :
    (s : Text)
    → find (λ c. not (is_ascii_hexdigit c)) (map lower s) ≡ none
    → IsLowerHex (map lower s)
unfolding find
lowered [] h = tt
lowered (c ∷ s) h = ground (arith, lower-IsLowerHex c, lowered s)

byte_len-IsLowerHex : (s : Text) → IsLowerHex s → byte_len s ≡ length s
unfolding byte_len
byte_len-IsLowerHex [] h = refl
byte_len-IsLowerHex (c ∷ s) h = ground (arith, byte_len-IsLowerHex s)

-- What comes out is 64 lowercase hexadecimal digits.
pub canonical-IsLowerHex :
    (s d : Text) → canonical_exe_sha256 s ≡ ok d → (length d ≡ 64) × IsLowerHex d
unfolding canonical_exe_sha256 to_ascii_lowercase
canonical-IsLowerHex s d h =
    ground (arith, lowered (trim s), byte_len-IsLowerHex (to_ascii_lowercase (trim s)))

map-lower : (s : Text) → IsLowerHex s → map lower s ≡ s
unfolding lower
map-lower [] h = refl
map-lower (c ∷ s) h = ground (arith, map-lower s)

no_bad : (s : Text) → IsLowerHex s → find (λ c. not (is_ascii_hexdigit c)) s ≡ none
unfolding find is_ascii_hexdigit
no_bad [] h = refl
no_bad (c ∷ s) h = ground (arith, no_bad s)

lower_hex-not-whitespace : (c : ℕ) → is_lower_hex c ≡ true → is_whitespace c ≡ false
unfolding is_whitespace
lower_hex-not-whitespace c h = ground arith

trim_start-IsLowerHex : (s : Text) → IsLowerHex s → trim_start s ≡ s
unfolding trim_start
trim_start-IsLowerHex [] h = refl
trim_start-IsLowerHex (c ∷ s) h = ground (arith, lower_hex-not-whitespace c h.0)

IsLowerHex-append : (s t : Text) → IsLowerHex s → IsLowerHex t → IsLowerHex (s ++ t)
IsLowerHex-append [] t h k = k
IsLowerHex-append (c ∷ s) t h k = (h.0, IsLowerHex-append s t h.1 k)

reverse-IsLowerHex : (s : Text) → IsLowerHex s → IsLowerHex (reverse s)
reverse-IsLowerHex [] h = tt
reverse-IsLowerHex (c ∷ s) h =
    rw (reverse-append (c ∷ []) s)
      (IsLowerHex-append (reverse s) (c ∷ []) (reverse-IsLowerHex s h.1) (h.0, tt))

trim-IsLowerHex : (s : Text) → IsLowerHex s → trim s ≡ s
unfolding trim
trim-IsLowerHex s h = rw (
  trim_start-IsLowerHex s h,
  trim_start-IsLowerHex (reverse s) (reverse-IsLowerHex s h),
  reverse-reverse,
)

check_digest-IsLowerHex : (d : Text) → length d ≡ 64 → IsLowerHex d → check_digest d ≡ ok d
unfolding check_digest
check_digest-IsLowerHex d n h = ground (arith, byte_len-IsLowerHex d h, no_bad d h)

-- A digest in that form is let through as it is.
pub canonical_of_IsLowerHex :
    (d : Text) → length d ≡ 64 → IsLowerHex d → canonical_exe_sha256 d ≡ ok d
unfolding canonical_exe_sha256 to_ascii_lowercase
canonical_of_IsLowerHex d n h =
    ap check_digest (ap (map lower) (trim-IsLowerHex d h) ∙ map-lower d h)
    ∙ check_digest-IsLowerHex d n h

-- Canonical form is reached in one step: what comes out goes through unchanged.
pub canonical-canonical :
    (s d : Text) → canonical_exe_sha256 s ≡ ok d → canonical_exe_sha256 d ≡ ok d
canonical-canonical s d h =
    let (n, hex) = canonical-IsLowerHex s d h in canonical_of_IsLowerHex d n hex
