-- ===== src/Prelude/Number.antt =====
-- JavaScript numbers, as far as the program tells them apart: integers, and all other values.
-- `-0` is the integer 0, which `===`, the orders and the formatting of amounts do not tell apart.
use Prim.Native.Nat.{ℕ, zero, suc, ◌+◌, ◌-◌, ◌*◌, ◌/◌, ◌%◌, ◌^◌, ◌<◌, ◌≤◌}
use mathlib.Core.Path.{◌≡◌, ◌∙◌, refl}
use mathlib.Core.Bool.{Bool, true, false}
use mathlib.Core.List.{[], ◌∷◌}
use native.Mathlib.Omega.{arith}
use smart_parcel_locker.Prelude.Tests.{ltb, lt→ltb, ◌==◌, if◌then◌else◌}
use smart_parcel_locker.Prelude.Texts.{Text, text, trim_start, is_space}
use smart_parcel_locker.Prelude.Int.{ℤ, pos, negsuc, neg, abs}
use smart_parcel_locker.Prelude.Decimal.{
  is_digit, scan, starts_with_digit, starts_with_digit-print, scan-print_self, print, print_int,
}

-- `other s` is a value for which `Number.isInteger` is false, with `s` its `String(…)`.
pub data Number : Type 0 where
  int : ℤ → Number
  other : Text → Number

-- The distance of the doubles around `n`, from `unit` on; 971 doublings reach the largest.
unfoldable pub spacing : ℕ → ℕ → ℕ → ℕ
spacing zero unit n = unit
spacing (suc fuel) unit n =
    let wider = spacing fuel (unit * 2) n in if ltb n (2 ^ 53 * unit) then unit else wider

-- The multiple of `unit` nearest to `n`, the even one of two.
unfoldable pub nearest : ℕ → ℕ → ℕ
nearest unit n =
    let down = n / unit * unit in
    if ltb (2 * (n % unit)) unit
    then down
    else if ltb unit (2 * (n % unit))
    then down + unit
    else if (n / unit) % 2 == 0
    then down
    else down + unit

-- The double for a natural number; `none` of the finite ones from 2 ^ 1024 on.
abbrev finite : ℕ → Bool
finite m = ltb m (2 ^ 1024)

unfoldable pub round : ℕ → ℕ
unfolding spacing nearest
round n = nearest (spacing 971 1 n) n

-- The Number value of an integer.
unfoldable pub to_number : ℤ → Number
unfolding round
to_number (pos n) = if finite (round n) then int (pos (round n)) else other (text "Infinity")
to_number (negsuc n) =
    if finite (round (suc n)) then int (neg (round (suc n))) else other (text "-Infinity")

-- The largest range in which every integer is a double: `Number.MAX_SAFE_INTEGER` is its end.
abbrev pub safe : ℕ
safe = 2 ^ 53 - 1

abbrev pub IsSafe : ℤ → Type 0
IsSafe z = abs z ≤ safe

spacing_first : (fuel unit n : ℕ) → n < 2 ^ 53 * unit → spacing (suc fuel) unit n ≡ unit
unfolding spacing
spacing_first fuel unit n h = rw (lt→ltb n (2 ^ 53 * unit) h)

nearest-one : (n : ℕ) → nearest 1 n ≡ n
unfolding nearest
nearest-one n = ground arith

pub round_of_safe : (n : ℕ) → n ≤ safe → round n ≡ n
unfolding round
round_of_safe n h = rw (spacing_first 970 1 n (omega arith)) (nearest-one n)

finite_of_safe : (n : ℕ) → n ≤ safe → finite n ≡ true
finite_of_safe n h = lt→ltb n (2 ^ 1024) (omega arith)

pub to_number_of_IsSafe : (z : ℤ) → IsSafe z → to_number z ≡ int z
unfolding to_number
to_number_of_IsSafe (pos n) h = rw (round_of_safe n h, finite_of_safe n h)
to_number_of_IsSafe (negsuc n) h = rw (round_of_safe (suc n) h, finite_of_safe (suc n) h)

-- `Number.parseInt(s, 10)`. Where no digit stands it is `NaN`.
parse_unsigned : Bool → Text → Number
parse_unsigned negative s =
    if starts_with_digit s
    then to_number (if negative then neg (scan 0 s) else pos (scan 0 s))
    else other (text "NaN")

parse_signed : Text → Number
unfolding parse_unsigned
parse_signed [] = other (text "NaN")
parse_signed (c ∷ s) =
    if c == b'-'
    then parse_unsigned true s
    else if c == b'+'
    then parse_unsigned false s
    else parse_unsigned false (c ∷ s)

unfoldable pub parse_int : Text → Number
unfolding parse_signed
parse_int s = parse_signed (trim_start s)

digit_not_space : (c : ℕ) → is_digit c ≡ true → is_space c ≡ false
unfolding is_space
digit_not_space c h = ground arith

parse_signed-trim_start :
    (s : Text) → starts_with_digit s ≡ true → parse_signed (trim_start s) ≡ parse_unsigned false s
unfolding parse_signed trim_start
parse_signed-trim_start [] h = cc
parse_signed-trim_start (c ∷ s) h = rw (digit_not_space c h) (ground arith)

parse_signed-minus : (s : Text) → parse_signed (trim_start (b'-' ∷ s)) ≡ parse_unsigned true s
unfolding parse_signed trim_start
parse_signed-minus s = refl

parse_unsigned-print :
    (negative : Bool) (n : ℕ)
    → parse_unsigned negative (print n) ≡ to_number (if negative then neg n else pos n)
unfolding parse_unsigned
parse_unsigned-print negative n = rw (starts_with_digit-print n, scan-print_self n)

-- A printed integer is parsed as the number that it denotes.
pub parse_int-print_int : (z : ℤ) → parse_int (print_int z) ≡ to_number z
unfolding parse_int print_int
parse_int-print_int (pos n) =
    parse_signed-trim_start (print n) (starts_with_digit-print n) ∙ parse_unsigned-print false n
parse_int-print_int (negsuc n) =
    parse_signed-minus (print (suc n)) ∙ parse_unsigned-print true (suc n)
