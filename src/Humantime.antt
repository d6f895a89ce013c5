-- ===== src/Humantime.antt =====
-- crates/cfc/src/humantime.rs: the duration syntax of `cfc pause --for`.
pub mod Sums
use colony_firewall_control.Prelude.{
  ℕ, ◌+◌, ◌*◌, ◌^◌, Bool, true, false, ◌&&◌, Option, none, some, [], ◌∷◌, ◌++◌, ltb, leb, ◌==◌,
  if◌then◌else◌, Text, Result, ok, err, ◌>>=◌,
}
use colony_firewall_control.Rule.Digest.{trim, lower}
use colony_firewall_control.Prompts.{parse_digits}

-- The error messages.
pub data DurationError : Type 0 where
  empty_duration : DurationError
  expected_digits : ℕ → DurationError
  out_of_range : Text → DurationError
  unknown_unit : ℕ → DurationError
  overflow : DurationError
  no_unit : Text → DurationError

abbrev pub ok_or {ℓ} : {A : Type ℓ} → Option A → DurationError → Result DurationError A
ok_or none e = err e
ok_or (some a) e = ok a

unfoldable pub is_ascii_digit : ℕ → Bool
is_ascii_digit c = leb b'0' c && leb c b'9'

-- `checked_mul` and `checked_add` of `u64`.
abbrev pub checked : ℕ → Option ℕ
checked n = if ltb n (2 ^ 64) then some n else none

-- The seconds of a unit, whose letter is lowered first.
unfoldable pub unit_secs : ℕ → Option ℕ
unit_secs c =
    if c == b's'
    then some 1
    else if c == b'm'
    then some 60
    else if c == b'h'
    then some 3600
    else if c == b'd'
    then some 86400
    else none

-- The variables of the loop.
pub record Scan : Type 0 where
  pub total : ℕ
  pub digits : Text
  pub saw_component : Bool

-- What a letter after the digits adds.
unfoldable pub close : Scan → ℕ → Result DurationError Scan
unfolding unit_secs lower parse_digits
close s c = do
  value ← ok_or (parse_digits 0 s.digits) (out_of_range s.digits)
  factor ← ok_or (unit_secs (lower c)) (unknown_unit (lower c))
  secs ← ok_or (checked (value * factor)) overflow
  total ← ok_or (checked (s.total + secs)) overflow
  ok (record { total = total; digits = []; saw_component = true })

-- One round of the loop.
unfoldable pub scan_char : Scan → ℕ → Result DurationError Scan
unfolding close is_ascii_digit
scan_char s c =
    if is_ascii_digit c
    then ok (record s { digits = s.digits ++ (c ∷ []) })
    else elim s.digits [ [] ↦ err (expected_digits c) | d ∷ ds ↦ close s c ]

unfoldable pub scan : Scan → Text → Result DurationError Scan
unfolding scan_char
scan s [] = ok s
scan s (c ∷ cs) = do s' ← scan_char s c; scan s' cs

-- What follows the loop.
unfoldable pub finish : Scan → Result DurationError ℕ
unfolding parse_digits
finish s = elim s.digits [
  | [] ↦ ok s.total
  | d ∷ ds ↦
      if s.saw_component
      then err (no_unit s.digits)
      else ok_or (parse_digits 0 s.digits) (out_of_range s.digits)
]

-- The loop with what follows it, on the trimmed text.
unfoldable pub read_trimmed : Text → Result DurationError ℕ
unfolding scan finish
read_trimmed [] = err empty_duration
read_trimmed (c ∷ cs) = do
  s ← scan (record { total = 0; digits = []; saw_component = false }) (c ∷ cs)
  finish s

unfoldable pub parse_duration : Text → Result DurationError ℕ
unfolding read_trimmed trim
parse_duration input = read_trimmed (trim input)
