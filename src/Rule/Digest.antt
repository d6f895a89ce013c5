-- ===== src/Rule/Digest.antt =====
-- crates/cfc-core/src/rule.rs: `canonical_exe_sha256`, over the code points of its text.
pub mod Canonical
use mathlib.Core.List.{reverse}
use colony_firewall_control.Prelude.{
  ℕ, ◌+◌, Bool, true, false, not, ◌&&◌, ◌||◌, Option, none, some, List, [], ◌∷◌, map, find, leb,
  ltb, ◌==◌, if◌then◌else◌, Text, Result, ok, err,
}

-- `char::is_whitespace`: the White_Space property of Unicode.
unfoldable pub is_whitespace : ℕ → Bool
is_whitespace c =
    leb 9 c && leb c 13
    || c == 32
    || c == 0x85
    || c == 0xA0
    || c == 0x1680
    || leb 0x2000 c && leb c 0x200A
    || c == 0x2028
    || c == 0x2029
    || c == 0x202F
    || c == 0x205F
    || c == 0x3000

unfoldable pub trim_start : Text → Text
trim_start [] = []
trim_start (c ∷ cs) = let rest = trim_start cs in if is_whitespace c then rest else c ∷ cs

unfoldable pub trim : Text → Text
unfolding trim_start
trim s = reverse (trim_start (reverse (trim_start s)))

unfoldable pub lower : ℕ → ℕ
lower c = if leb b'A' c && leb c b'Z' then c + 32 else c

unfoldable pub to_ascii_lowercase : Text → Text
unfolding lower
to_ascii_lowercase = map lower

-- The length of a code point in UTF-8.
unfoldable pub len_utf8 : ℕ → ℕ
len_utf8 c = if ltb c 0x80 then 1 else if ltb c 0x800 then 2 else if ltb c 0x10000 then 3 else 4

-- `str::len` counts bytes.
unfoldable pub byte_len : Text → ℕ
unfolding len_utf8
byte_len [] = 0
byte_len (c ∷ cs) = len_utf8 c + byte_len cs

unfoldable pub is_ascii_hexdigit : ℕ → Bool
is_ascii_hexdigit c =
    leb b'0' c && leb c b'9' || leb b'a' c && leb c b'f' || leb b'A' c && leb c b'F'

pub data DigestError : Type 0 where
  wrong_length : ℕ → DigestError
  not_hexadecimal : ℕ → DigestError

-- What follows the trimming and lowering.
unfoldable pub check_digest : Text → Result DigestError Text
check_digest hex =
    if not (byte_len hex == 64)
    then err (wrong_length (byte_len hex))
    else elim (find (λ c. not (is_ascii_hexdigit c)) hex) [
      | some bad ↦ err (not_hexadecimal bad)
      | none ↦ ok hex
    ]

unfoldable pub canonical_exe_sha256 : Text → Result DigestError Text
unfolding check_digest
canonical_exe_sha256 hex = check_digest (to_ascii_lowercase (trim hex))
