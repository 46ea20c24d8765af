-- ===== src/Prelude/Uri/Decode/Percents.antt =====
-- The first machine reads back what was written as `%XX`.
use smart_parcel_locker.Prelude.{
  ℕ, ◌+◌, ◌*◌, ◌/◌, ◌%◌, ◌<◌, Text, Bool, true, false, ◌==◌, Option, none, some, List, [], ◌∷◌,
  ◌++◌, map, ok, ◌≡◌, refl, subst, arith, all_below, all_below_sound, All,
}
use smart_parcel_locker.Prelude.Uri.{percent, percent_all, hex_digit, is_unreserved}
use smart_parcel_locker.Prelude.Uri.Decode.{
  drive, drive_accepted, Item, plain, octet, hex_value, text_part, after_percent, after_digit, read,
  digit_then, is_text_part,
}

-- The text is read as the items.
abbrev pub ReadsAs : Text → List Item → Type 0
ReadsAs t items = drive read is_text_part text_part t ≡ ok items

is_value : Option ℕ → ℕ → Bool
is_value none d = false
is_value (some v) d = v == d

hex_table : all_below 16 (λ d. is_value (hex_value (hex_digit d)) d) ≡ true
unfolding all_below is_value hex_value hex_digit
hex_table = refl

some_of_is_value : (v : Option ℕ) (d : ℕ) → is_value v d ≡ true → v ≡ some d
unfolding is_value
some_of_is_value v d h = ground arith

hex_value-hex_digit : (d : ℕ) → d < 16 → hex_value (hex_digit d) ≡ some d
hex_value-hex_digit d h = some_of_is_value _ d (all_below_sound 16 _ d hex_table h)

read_percent : read text_part b'%' ≡ some (after_percent, [])
unfolding read
read_percent = refl

read_first : (d : ℕ) → d < 16 → read after_percent (hex_digit d) ≡ some (after_digit d, [])
unfolding read digit_then
read_first d h = rw (hex_value-hex_digit d h)

read_second :
    (h d : ℕ)
    → d < 16
    → read (after_digit h) (hex_digit d) ≡ some (text_part, octet (h * 16 + d) ∷ [])
unfolding read digit_then
read_second h d below = rw (hex_value-hex_digit d below)

percent-ReadsAs :
    (o : ℕ) (t : Text) (items : List Item)
    → o < 256
    → ReadsAs t items
    → ReadsAs (percent o ++ t) (octet o ∷ items)
unfolding percent
percent-ReadsAs o t items h p = drive_accepted read is_text_part _ _ _ _ [] _ read_percent (
    drive_accepted read is_text_part _ _ _ _ [] _ (read_first (o / 16) (omega arith)) (
      drive_accepted read is_text_part _ _ _ _ (octet o ∷ []) _
        (subst
          (λ n. read (after_digit (o / 16)) (hex_digit (o % 16)) ≡ some (text_part, octet n ∷ []))
          (omega arith) (read_second (o / 16) (o % 16) (omega arith)))
        p))

pub percent_all-ReadsAs :
    (os : List ℕ) (t : Text) (items : List Item)
    → All (λ o. o < 256) os
    → ReadsAs t items
    → ReadsAs (percent_all os ++ t) (map octet os ++ items)
unfolding percent_all percent
percent_all-ReadsAs [] t items h p = p
percent_all-ReadsAs (o ∷ os) t items (below, h) p =
    percent-ReadsAs o (percent_all os ++ t) (map octet os ++ items) below
      (percent_all-ReadsAs os t items h p)

read_unreserved :
    (c : ℕ) → is_unreserved c ≡ true → read text_part c ≡ some (text_part, plain c ∷ [])
unfolding read is_unreserved
read_unreserved c h = ground arith

pub unreserved-ReadsAs :
    (c : ℕ) (t : Text) (items : List Item)
    → is_unreserved c ≡ true
    → ReadsAs t items
    → ReadsAs (c ∷ t) (plain c ∷ items)
unreserved-ReadsAs c t items h p =
    drive_accepted read is_text_part _ _ _ _ (plain c ∷ []) _ (read_unreserved c h) p
