-- ===== src/Prelude/Floats.antt =====
-- Numbers that are no integers. The model knows such a number by what it prints as, so the
-- operations on it are a parameter; on integers they are written out.
use smart_parcel_locker.Prelude.{◌+◌, Text, Bool, true, false, not, ◌&&◌, ◌||◌, text, text_eq, ltb}
use smart_parcel_locker.Prelude.Int.{ℤ, pos, ◌+ℤ◌, pos_part, neg_part}
use smart_parcel_locker.Prelude.Number.{Number, int, other, to_number}
use smart_parcel_locker.Prelude.Decimal.{print_int}

-- Arithmetic and comparison where one operand is no integer, `(x / 1000).toFixed(1)` of such a
-- number, and `Number(s)`.
pub record Floats : Type 0 where
  pub add_fraction : Number → Number → Number
  pub less_fraction : Number → Number → Bool
  pub less_equal_fraction : Number → Number → Bool
  pub kilometres_of_fraction : Text → Text
  pub number_of_text : Text → Number

-- `String(x)`
unfoldable pub shown_number : Number → Text
shown_number (int z) = print_int z
shown_number (other shown) = shown

-- `a + b`
unfoldable pub add : Floats → Number → Number → Number
add f (int a) (int b) = to_number (a +ℤ b)
add f a b = f.add_fraction a b

-- a < b on integers
abbrev pub less_int : ℤ → ℤ → Bool
less_int a b = ltb (pos_part a + neg_part b) (pos_part b + neg_part a)

-- `a < b`
unfoldable pub less : Floats → Number → Number → Bool
less f (int a) (int b) = less_int a b
less f a b = f.less_fraction a b

-- `a <= b`
unfoldable pub less_equal : Floats → Number → Number → Bool
less_equal f (int a) (int b) = not (less_int b a)
less_equal f a b = f.less_equal_fraction a b

-- `Number.isFinite(a)`
unfoldable pub is_finite : Number → Bool
is_finite (int z) = true
is_finite (other shown) = not (
    text_eq shown (text "NaN")
    || text_eq shown (text "Infinity")
    || text_eq shown (text "-Infinity"))

-- `Object.is(a, b)`
unfoldable pub same_number : Number → Number → Bool
same_number (int a) (int b) = not (less_int a b) && not (less_int b a)
same_number (other a) (other b) = text_eq a b
same_number _ _ = false

abbrev pub less_than_one_thousand : Floats → Number → Bool
unfolding less
less_than_one_thousand f d = less f d (int (pos 1000))
