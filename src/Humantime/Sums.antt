-- ===== src/Humantime/Sums.antt =====
-- Durations that are written as a sum of numbers with units.
use mathlib.Core.List.{append-nil, append_assoc}
use colony_firewall_control.Prelude.{
  ℕ, ◌+◌, ◌*◌, ◌^◌, ◌-◌, ◌<◌, ◌≤◌, ◌≡◌, refl, ap, ◌∙◌, sym, Bool, true, false, some, List, [], ◌∷◌,
  ◌++◌, All, Text, ok, arith,
}
use colony_firewall_control.Prompts.{parse_digits}
use colony_firewall_control.Rule.Digest.{trim, lower}
use colony_firewall_control.Humantime.{
  Scan, is_ascii_digit, unit_secs, close, scan_char, scan, finish, read_trimmed, parse_duration,
}

abbrev pub IsDigits : Text → Type 0
IsDigits = All (λ c. is_ascii_digit c ≡ true)

-- The decimal number that digits continue.
abbrev pub number_from : ℕ → Text → ℕ
number_from acc [] = acc
number_from acc (c ∷ cs) = number_from (acc * 10 + (c - b'0')) cs

number_from_le : (acc : ℕ) (ds : Text) → acc ≤ number_from acc ds
number_from_le acc [] = omega arith
number_from_le acc (c ∷ cs) = let rest = number_from_le (acc * 10 + (c - b'0')) cs in omega arith

parse_digits-number_from :
    (acc : ℕ) (ds : Text)
    → IsDigits ds
    → number_from acc ds < 2 ^ 64
    → parse_digits acc ds ≡ some (number_from acc ds)
unfolding parse_digits is_ascii_digit
parse_digits-number_from acc [] d h = refl
parse_digits-number_from acc (c ∷ cs) d h = ground (
  arith,
  parse_digits-number_from (acc * 10 + (c - b'0')) cs d.1,
  number_from_le (acc * 10 + (c - b'0')) cs,
)

-- A number with a unit: at least one digit, and a letter in either case.
pub record Component : Type 0 where
  pub first : ℕ
  pub more : Text
  pub letter : ℕ
  pub factor : ℕ

abbrev pub value : Component → ℕ
value x = number_from 0 (x.first ∷ x.more) * x.factor

pub record IsComponent (x : Component) : Type 0 where
  pub digits : IsDigits (x.first ∷ x.more)
  pub letter : is_ascii_digit x.letter ≡ false
  pub unit : unit_secs (lower x.letter) ≡ some x.factor

abbrev pub sum : List Component → ℕ
sum [] = 0
sum (x ∷ xs) = value x + sum xs

abbrev pub written : List Component → Text
written [] = []
written (x ∷ xs) = x.first ∷ x.more ++ (x.letter ∷ written xs)

scan-digits :
    (s : Scan) (ds rest : Text)
    → IsDigits ds
    → scan s (ds ++ rest) ≡ scan (record s { digits = s.digits ++ ds }) rest
unfolding scan scan_char
scan-digits s [] rest d =
    ap (λ ds. scan (record s { digits = ds }) rest) (sym (append-nil s.digits))
scan-digits s (c ∷ ds) rest d = rw (d.0) (
    scan-digits (record s { digits = s.digits ++ (c ∷ []) }) ds rest d.1
    ∙ ap (λ (all : Text). scan (record s { digits = all }) rest)
        (append_assoc s.digits (c ∷ []) ds))

-- The state after a component whose digits were read.
abbrev after : ℕ → Scan
after total = record { total = total; digits = []; saw_component = true }

digits_fit : (c n factor : ℕ) → unit_secs c ≡ some factor → n * factor < 2 ^ 64 → n < 2 ^ 64
unfolding unit_secs
digits_fit c n factor u h = ground (arith, u, h)

close-component :
    (s : Scan) (x : Component) (digits : Text) (n : ℕ)
    → s.digits ≡ digits
    → parse_digits 0 digits ≡ some n
    → unit_secs (lower x.letter) ≡ some x.factor
    → s.total + n * x.factor < 2 ^ 64
    → close s x.letter ≡ ok (after (s.total + n * x.factor))
unfolding close
close-component s x digits n same p u h = ground (arith, same, p, u, h)

scan-component :
    (total : ℕ) (saw : Bool) (x : Component) (rest : Text)
    → IsComponent x
    → total + value x < 2 ^ 64
    → scan
        (record { total = total; digits = []; saw_component = saw })
        (x.first ∷ x.more ++ (x.letter ∷ rest))
      ≡ scan (after (total + value x)) rest
unfolding scan scan_char close
scan-component total saw x rest w h =
    scan-digits (record { total = total; digits = []; saw_component = saw }) (x.first ∷ x.more)
      (x.letter ∷ rest) w.digits
    ∙ rw w.letter (
        rw
          (close-component
            (record { total = total; digits = x.first ∷ x.more; saw_component = saw }) x
            (x.first ∷ x.more) (number_from 0 (x.first ∷ x.more)) refl
            (parse_digits-number_from 0 (x.first ∷ x.more) w.digits (
              digits_fit (lower x.letter) (number_from 0 (x.first ∷ x.more)) x.factor w.unit
                (omega arith)))
            w.unit h)
          refl)

scan-written :
    (total : ℕ) (saw : Bool) (xs : List Component)
    → All IsComponent xs
    → total + sum xs < 2 ^ 64
    → scan (after total) (written xs) ≡ ok (after (total + sum xs))
unfolding scan
scan-written total saw [] w h = ap (λ t. ok (after t)) (omega arith)
scan-written total saw (x ∷ xs) w h =
    scan-component total true x (written xs) w.0 (omega arith)
    ∙ scan-written (total + value x) true xs w.1 (omega arith)
    ∙ ap (λ t. ok (after t)) (omega arith)

-- A text that trims to one or more numbers with units s, m, h or d, in either case, is read as
-- their sum in seconds, where that is below 2^64.
pub parse_duration-written :
    (input : Text) (x : Component) (xs : List Component)
    → All IsComponent (x ∷ xs)
    → trim input ≡ written (x ∷ xs)
    → sum (x ∷ xs) < 2 ^ 64
    → parse_duration input ≡ ok (sum (x ∷ xs))
unfolding parse_duration read_trimmed finish
parse_duration-written input x xs w t h = rw t (
    rw (scan-component 0 false x (written xs) w.0 (omega arith))
      (rw (scan-written (0 + value x) true xs w.1 (omega arith)) (ap ok (omega arith))))
