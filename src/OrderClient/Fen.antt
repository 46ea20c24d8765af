-- ===== src/OrderClient/Fen.antt =====
-- Amounts of the server: protojson prints an int64 as a decimal string.
use smart_parcel_locker.Prelude.{Text, true, some, [], ◌∷◌, ok, ◌≡◌, refl, ap, ◌∙◌, suc}
use smart_parcel_locker.Prelude.Int.{ℤ, pos, negsuc}
use smart_parcel_locker.Prelude.Number.{
  int, parse_int, to_number, IsSafe, to_number_of_IsSafe, parse_int-print_int,
}
use smart_parcel_locker.Prelude.Decimal.{
  print, print_int, starts_with_digit, starts_with_digit-print,
}
use smart_parcel_locker.OrderClient.{to_fen, string, number, integer_or_throw}

to_fen-cons :
    (s : Text)
    → starts_with_digit s ≡ true
    → to_fen (some (string s)) ≡ integer_or_throw s (parse_int s)
unfolding to_fen
to_fen-cons [] h = cc
to_fen-cons (c ∷ s) h = refl

to_fen-minus :
    (s : Text)
    → to_fen (some (string (b'-' ∷ s))) ≡ integer_or_throw (b'-' ∷ s) (parse_int (b'-' ∷ s))
unfolding to_fen
to_fen-minus s = refl

to_fen-print_int_eq :
    (z : ℤ) → to_fen (some (string (print_int z))) ≡ integer_or_throw (print_int z) (to_number z)
unfolding print_int
to_fen-print_int_eq (pos n) =
    to_fen-cons (print n) (starts_with_digit-print n)
    ∙ ap (integer_or_throw (print n)) (parse_int-print_int (pos n))
to_fen-print_int_eq (negsuc n) =
    to_fen-minus (print (suc n))
    ∙ ap (integer_or_throw (b'-' ∷ print (suc n))) (parse_int-print_int (negsuc n))

-- A safe integer comes through, as a number and as the string that protojson makes of it.
pub to_fen-print_int :
    (z : ℤ)
    → IsSafe z
    → (to_fen (some (string (print_int z))) ≡ ok z) × (to_fen (some (number (int z))) ≡ ok z)
unfolding to_fen
to_fen-print_int z h =
    (to_fen-print_int_eq z ∙ ap (integer_or_throw (print_int z)) (to_number_of_IsSafe z h), refl)
