-- ===== src/Money.antt =====
-- frontend/packages/domain-ui/src/money.ts: amounts in fen, formatted and added.
pub mod RoundTrip
use smart_parcel_locker.Prelude.{
  ◌^◌, ◌*◌, ℕ, ◌-◌, ◌/◌, ◌%◌, Text, text, List, [], ◌∷◌, ◌++◌, Result, ok, err, plain_error, ◌>>=◌,
  length, replicate, if◌then◌else◌, ltb,
}
use smart_parcel_locker.Prelude.Int.{ℤ, ◌+ℤ◌, abs, is_negative}
use smart_parcel_locker.Prelude.Number.{nearest, spacing, Number, int, other, to_number}
use smart_parcel_locker.Prelude.Decimal.{print}
use smart_parcel_locker.Prelude.Shown.{show_natural}

-- `assertIntegerFen`, which hands the integer on
assert_integer_fen : Number → Text → Result ℤ
assert_integer_fen (int z) name = ok z
assert_integer_fen (other shown) name =
    err (plain_error (name ++ (text " must be an integer amount of fen, got: " ++ shown)))

-- `s.padStart(width, fill)` for a fill of one character
unfoldable pub pad_start : ℕ → ℕ → Text → Text
pad_start width fill s = replicate (width - length s) fill ++ s

-- `Math.floor(n / 100)`. The quotient is the double nearest to it; from 2 ^ 53 on the doubles
-- around it are multiples of 1 / 64.
unfoldable pub floor_hundredth : ℕ → ℕ
unfolding spacing nearest
floor_hundredth n =
    let unit = 100 * spacing 971 1 (n * 64 / 100) in
    if ltb n (2 ^ 53) then n / 100 else nearest unit (n * 64) / 100 / 64

-- `formatFen`
unfoldable pub format_fen : Number → Result Text
unfolding assert_integer_fen pad_start floor_hundredth show_natural
format_fen fen = do
  z ← assert_integer_fen fen (text "fen")
  let sign = if is_negative z then text "-" else []
  let yuan = floor_hundredth (abs z)
  let remainder = abs z % 100
  ok (sign ++ (text "¥" ++ (show_natural yuan ++ (text "." ++ pad_start 2 b'0' (print remainder)))))

-- `addFen`; the sum of two doubles is the double nearest to it
unfoldable pub add_fen : Number → Number → Result Number
unfolding assert_integer_fen
add_fen a b = do
  x ← assert_integer_fen a (text "a")
  y ← assert_integer_fen b (text "b")
  ok (to_number (x +ℤ y))
