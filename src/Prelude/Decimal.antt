-- ===== src/Prelude/Decimal.antt =====
-- Decimal digits: `String(n)` of a natural number, and the digits at the start of a string.
use Prim.Native.Nat.{ℕ, zero, suc, ◌+◌, ◌-◌, ◌*◌, ◌/◌, ◌%◌, ◌<◌}
use mathlib.Core.Path.{◌≡◌, refl, ap, ◌∙◌}
use mathlib.Core.Bool.{Bool, true, false, ◌&&◌}
use mathlib.Core.List.{[], ◌∷◌, ◌++◌}
use native.Mathlib.Omega.{arith}
use smart_parcel_locker.Prelude.Tests.{ltb, leb, if◌then◌else◌}
use smart_parcel_locker.Prelude.Texts.{Text}
use smart_parcel_locker.Prelude.Int.{ℤ, pos, negsuc}

abbrev pub is_digit : ℕ → Bool
is_digit c = leb b'0' c && leb c b'9'

-- The digits of `n` in front of `out`; the fuel is one more than `n`.
unfoldable pub print_from : ℕ → ℕ → Text → Text
print_from zero n out = out
print_from (suc fuel) n out =
    let more = print_from fuel (n / 10) ((b'0' + n % 10) ∷ out) in
    if ltb n 10 then (b'0' + n % 10) ∷ out else more

-- `String(n)`
unfoldable pub print : ℕ → Text
unfolding print_from
print n = print_from (suc n) n []

-- The value of the digits at the start, behind those that make `n`.
unfoldable pub scan : ℕ → Text → ℕ
scan n [] = n
scan n (c ∷ s) = if is_digit c then scan (n * 10 + (c - b'0')) s else n

-- What follows the digits at the start.
unfoldable pub skip_digits : Text → Text
skip_digits [] = []
skip_digits (c ∷ s) = if is_digit c then skip_digits s else c ∷ s

abbrev pub starts_with_digit : Text → Bool
starts_with_digit [] = false
starts_with_digit (c ∷ s) = is_digit c

digit_step : (n : ℕ) (out : Text) → scan (n / 10) ((b'0' + n % 10) ∷ out) ≡ scan n out
unfolding scan
digit_step n out = ground arith

digit_last : (n : ℕ) (out : Text) → n < 10 → scan 0 ((b'0' + n % 10) ∷ out) ≡ scan n out
unfolding scan
digit_last n out h = ground arith

pub scan-print_from :
    (fuel n : ℕ) (out : Text) → n < fuel → scan 0 (print_from fuel n out) ≡ scan n out
unfolding print_from
scan-print_from zero n out h = absurd (omega arith)
scan-print_from (suc fuel) n out h = ground (
  arith,
  digit_last n out,
  digit_step n out,
  scan-print_from fuel (n / 10) ((b'0' + n % 10) ∷ out),
)

skip_digit : (n : ℕ) (out : Text) → skip_digits ((b'0' + n % 10) ∷ out) ≡ skip_digits out
unfolding skip_digits
skip_digit n out = ground arith

pub skip_digits-print_from :
    (fuel n : ℕ) (out : Text) → skip_digits (print_from fuel n out) ≡ skip_digits out
unfolding print_from
skip_digits-print_from zero n out = refl
skip_digits-print_from (suc fuel) n out =
    ground (arith, skip_digit n out, skip_digits-print_from fuel (n / 10) ((b'0' + n % 10) ∷ out))

pub starts_with_digit-print_from :
    (fuel n : ℕ) (out : Text) → n < fuel → starts_with_digit (print_from fuel n out) ≡ true
unfolding print_from
starts_with_digit-print_from zero n out h = absurd (omega arith)
starts_with_digit-print_from (suc fuel) n out h =
    ground (arith, starts_with_digit-print_from fuel (n / 10) ((b'0' + n % 10) ∷ out))

print_from-append :
    (fuel n : ℕ) (out rest : Text) → print_from fuel n out ++ rest ≡ print_from fuel n (out ++ rest)
unfolding print_from
print_from-append zero n out rest = refl
print_from-append (suc fuel) n out rest =
    ground (arith, print_from-append fuel (n / 10) ((b'0' + n % 10) ∷ out) rest)

scan-nil : (n : ℕ) → scan n [] ≡ n
unfolding scan
scan-nil n = refl

-- Printed digits are read back, with what follows them left over.
pub scan-print : (n : ℕ) (rest : Text) → scan 0 (print n ++ rest) ≡ scan n rest
unfolding print
scan-print n rest =
    ap (scan 0) (print_from-append (suc n) n [] rest) ∙ scan-print_from (suc n) n rest (omega arith)

pub skip_digits-print : (n : ℕ) (rest : Text) → skip_digits (print n ++ rest) ≡ skip_digits rest
unfolding print
skip_digits-print n rest =
    ap skip_digits (print_from-append (suc n) n [] rest) ∙ skip_digits-print_from (suc n) n rest

pub starts_with_digit-print : (n : ℕ) → starts_with_digit (print n) ≡ true
unfolding print
starts_with_digit-print n = starts_with_digit-print_from (suc n) n [] (omega arith)

-- `String(z)`
unfoldable pub print_int : ℤ → Text
print_int (pos n) = print n
print_int (negsuc n) = b'-' ∷ print (suc n)

pub scan-print_self : (n : ℕ) → scan 0 (print n) ≡ n
unfolding print
scan-print_self n = scan-print_from (suc n) n [] (omega arith) ∙ scan-nil n
