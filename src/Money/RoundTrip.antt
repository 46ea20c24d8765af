-- ===== src/Money/RoundTrip.antt =====
-- Amounts are read back from their formatted text, and added exactly where the sum is safe.
use smart_parcel_locker.Prelude.{
  lt→ltb, ◌≤◌, ℕ, suc, all_below, all_below_sound, ==_iff, ◌+◌, ◌*◌, ◌^◌, ◌/◌, ◌%◌, ◌<◌, Text, text,
  [], ◌∷◌, ◌++◌, ok, err, plain_error, ◌==◌, if◌then◌else◌, ◌≡◌, refl, ap, arith, true,
}
use smart_parcel_locker.Prelude.Int.{ℤ, pos, negsuc, neg, ◌+ℤ◌}
use smart_parcel_locker.Prelude.Number.{safe, int, other, IsSafe, to_number_of_IsSafe}
use smart_parcel_locker.Prelude.Decimal.{print, scan, skip_digits, scan-print, skip_digits-print}
use smart_parcel_locker.Prelude.Shown.{show_natural, show_natural-print}
use smart_parcel_locker.Money.{floor_hundredth, format_fen, add_fen, pad_start}

-- The fen that `yuan.fen` stands for, read with no use of `formatFen`: the digits before the
-- point count a hundred each, those behind it one.
read_cents : ℕ → Text → ℕ
unfolding scan
read_cents yuan [] = yuan * 100
read_cents yuan (c ∷ s) = yuan * 100 + scan 0 s

read_yuan : Text → ℕ
unfolding read_cents skip_digits
read_yuan s = read_cents (scan 0 s) (skip_digits s)

read_unsigned : Text → ℕ
unfolding read_yuan
read_unsigned [] = 0
read_unsigned (c ∷ s) = read_yuan s

unfoldable pub read_fen : Text → ℤ
unfolding read_unsigned
read_fen [] = pos 0
read_fen (c ∷ s) = if c == b'-' then neg (read_unsigned s) else pos (read_unsigned (c ∷ s))

pad_table : all_below 100 (λ r. scan 0 (pad_start 2 b'0' (print r)) == r) ≡ true
unfolding all_below pad_start print scan
pad_table = refl

scan-pad : (r : ℕ) → r < 100 → scan 0 (pad_start 2 b'0' (print r)) ≡ r
scan-pad r h = (==_iff _ r).0 (all_below_sound 100 _ r pad_table h)

read_yuan-print :
    (n : ℕ) → read_yuan (print (n / 100) ++ (text "." ++ pad_start 2 b'0' (print (n % 100)))) ≡ n
unfolding read_yuan text
read_yuan-print n =
    rw (scan-print (n / 100), skip_digits-print (n / 100), scan-pad (n % 100) (omega arith))
      (omega arith)

floor_hundredth-quotient : (n : ℕ) → n ≤ safe → floor_hundredth n ≡ n / 100
unfolding floor_hundredth
floor_hundredth-quotient n h = rw (lt→ltb n (2 ^ 53) (omega arith)) refl

show_natural-yuan : (n : ℕ) → n ≤ safe → show_natural (floor_hundredth n) ≡ print (n / 100)
show_natural-yuan n h =
    rw (floor_hundredth-quotient n h) (show_natural-print (n / 100) (omega arith))

read_yuan-safe :
    (n : ℕ)
    → n ≤ safe
    → read_yuan
        (show_natural (floor_hundredth n) ++ (text "." ++ pad_start 2 b'0' (print (n % 100))))
      ≡ n
read_yuan-safe n h = rw (show_natural-yuan n h) (read_yuan-print n)

-- Every safe integer amount is formatted, and its text is read back as the amount.
pub read_fen-format_fen :
    (z : ℤ) → IsSafe z → (t : Text) × (format_fen (int z) ≡ ok t) × (read_fen t ≡ z)
unfolding format_fen read_fen text
read_fen-format_fen (pos n) h = (_, refl, ap pos (read_yuan-safe n h))
read_fen-format_fen (negsuc n) h = (_, refl, ap neg (read_yuan-safe (suc n) h))

format_fen-other :
    (s : Text)
    → format_fen (other s)
      ≡ err (plain_error (text "fen must be an integer amount of fen, got: " ++ s))
unfolding format_fen text
format_fen-other s = refl

-- Amounts whose sum is a safe integer are added exactly.
pub add_fen_of_IsSafe : (a b : ℤ) → IsSafe (a +ℤ b) → add_fen (int a) (int b) ≡ ok (int (a +ℤ b))
unfolding add_fen
add_fen_of_IsSafe a b h = ap ok (to_number_of_IsSafe (a +ℤ b) h)
