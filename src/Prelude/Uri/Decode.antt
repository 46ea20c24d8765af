-- ===== src/Prelude/Uri/Decode.antt =====
-- `decodeURIComponent`: every `%XX` is an octet, the octets are UTF-8, and all else stays.
mod Percents
mod Points
pub mod RoundTrip
use smart_parcel_locker.Prelude.{
  ℕ, zero, suc, ◌+◌, ◌-◌, ◌*◌, ◌/◌, ◌%◌, ◌<◌, Text, Bool, true, false, ◌||◌, ◌&&◌, ◌==◌, ltb, leb,
  Option, none, some, List, [], ◌∷◌, ◌++◌, map, Result, ok, err, uri_error, ◌>>=◌, ◌≡◌, refl,
  if◌then◌else◌,
}

-- A machine that reads a list: from its state and an item to the next state and what it puts out.
module _ {ℓ κ μ} {E : Type ℓ} {I : Type κ} {O : Type μ} (accept : E → I → Option (E × List O))
    (is_final : E → Bool) where
  unfoldable pub drive : E → List I → Result (List O)
  drive e [] = if is_final e then ok [] else err uri_error
  drive e (i ∷ rest) = elim (accept e i) [
    | none ↦ err uri_error
    | some (next, out) ↦ drive next rest >>= (λ more. ok (out ++ more))
  ]

  pub drive_accepted :
      (e next : E) (i : I) (rest : List I) (out more : List O)
      → accept e i ≡ some (next, out)
      → drive next rest ≡ ok more
      → drive e (i ∷ rest) ≡ ok (out ++ more)
  unfolding drive
  drive_accepted e next i rest out more h p = rw (drive, h, p)

-- A character that stays, or an octet.
pub data Item : Type 0 where
  plain octet : ℕ → Item

hex_value : ℕ → Option ℕ
hex_value c =
    if leb b'0' c && leb c b'9'
    then some (c - b'0')
    else if leb b'A' c && leb c b'F'
    then some (c - b'A' + 10)
    else if leb b'a' c && leb c b'f'
    then some (c - b'a' + 10)
    else none

pub data Reading : Type 0 where
  text_part after_percent : Reading
  after_digit : ℕ → Reading

digit_then : Option ℕ → (ℕ → Reading × List Item) → Option (Reading × List Item)
digit_then none next = none
digit_then (some d) next = some (next d)

pub read : Reading → ℕ → Option (Reading × List Item)
unfolding hex_value digit_then
read text_part c = if c == b'%' then some (after_percent, []) else some (text_part, plain c ∷ [])
read after_percent c = digit_then (hex_value c) (λ d. (after_digit d, []))
read (after_digit h) c = digit_then (hex_value c) (λ d. (text_part, octet (h * 16 + d) ∷ []))

pub is_text_part : Reading → Bool
is_text_part text_part = true
is_text_part _ = false

-- Between two characters, or within one: the octets that are missing but one, the value so far, and
-- the least code point of this length.
pub data Sequence : Type 0 where
  between : Sequence
  within : ℕ → ℕ → ℕ → Sequence

pub is_between : Sequence → Bool
is_between between = true
is_between _ = false

-- The code units of a code point.
pub utf16 : ℕ → Text
utf16 p =
    if ltb p 0x10000
    then p ∷ []
    else (0xd800 + (p - 0x10000) / 0x400) ∷ (0xdc00 + (p - 0x10000) % 0x400) ∷ []

first_octet : ℕ → Option (Sequence × Text)
first_octet o =
    if ltb o 0x80
    then some (between, o ∷ [])
    else if ltb o 0xc0
    then none
    else if ltb o 0xe0
    then some (within 0 (o - 0xc0) 0x80, [])
    else if ltb o 0xf0
    then some (within 1 (o - 0xe0) 0x800, [])
    else if ltb o 0xf8
    then some (within 2 (o - 0xf0) 0x10000, [])
    else none

pub is_scalar : ℕ → Bool
is_scalar p = ltb p 0xd800 || leb 0xe000 p && ltb p 0x110000

next_octet : ℕ → ℕ → ℕ → Option (Sequence × Text)
unfolding utf16 is_scalar
next_octet zero value least =
    if leb least value && is_scalar value then some (between, utf16 value) else none
next_octet (suc n) value least = some (within n value least, [])

pub assemble : Sequence → Item → Option (Sequence × Text)
unfolding first_octet next_octet
assemble between (plain c) = some (between, c ∷ [])
assemble between (octet o) = first_octet o
assemble (within n value least) (plain c) = none
assemble (within n value least) (octet o) =
    if leb 0x80 o && ltb o 0xc0 then next_octet n (value * 0x40 + (o - 0x80)) least else none

-- What `decodeURIComponent(s)` returns; `URIError` where it is no encoded text.
unfoldable pub decode_uri_component : Text → Result Text
unfolding drive read is_text_part assemble is_between
decode_uri_component s = drive read is_text_part text_part s >>= drive assemble is_between between
