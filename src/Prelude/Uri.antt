-- ===== src/Prelude/Uri.antt =====
-- `encodeURIComponent`: unreserved characters stay, all others become their UTF-8 octets.
pub mod Decode
use Prim.Native.Nat.{ℕ, ◌+◌, ◌-◌, ◌*◌, ◌/◌, ◌%◌, ◌<◌}
use mathlib.Core.Path.{◌≡◌, refl}
use mathlib.Core.Logic.{◌⊎◌, inl, inr}
use mathlib.Core.Bool.{Bool, true, false, ◌||◌, ◌&&◌}
use mathlib.Core.List.{List, [], ◌∷◌, ◌++◌}
use native.Mathlib.Omega.{arith}
use smart_parcel_locker.Prelude.Tests.{
  leb, ltb, ◌==◌, if◌then◌else◌, all_below, all_below_sound, Bool-cases,
}
use smart_parcel_locker.Prelude.Lists.{All, All-append}
use smart_parcel_locker.Prelude.Texts.{Text}
use smart_parcel_locker.Prelude.Errors.{
  Result, ok, err, uri_error, ◌>>=◌, Holds, Holds-bind, Holds-ok,
}

-- Letters, digits and `-_.!~*'()`.
unfoldable pub is_unreserved : ℕ → Bool
is_unreserved c =
    leb b'a' c && leb c b'z'
    || leb b'A' c && leb c b'Z'
    || leb b'0' c && leb c b'9'
    || c == b'-'
    || c == b'_'
    || c == b'.'
    || c == b'!'
    || c == b'~'
    || c == b'*'
    || c == 39
    || c == b'('
    || c == b')'

abbrev pub is_high : ℕ → Bool
is_high c = leb 0xd800 c && leb c 0xdbff

abbrev pub is_low : ℕ → Bool
is_low c = leb 0xdc00 c && leb c 0xdfff

hex_digit : ℕ → ℕ
hex_digit d = if ltb d 10 then b'0' + d else b'A' + (d - 10)

-- `%XX`
percent : ℕ → Text
unfolding hex_digit
percent o = b'%' ∷ hex_digit (o / 16) ∷ hex_digit (o % 16) ∷ []

-- The octets of a code point in UTF-8.
pub utf8 : ℕ → List ℕ
utf8 p =
    if ltb p 0x80
    then p ∷ []
    else if ltb p 0x800
    then (0xc0 + p / 0x40) ∷ (0x80 + p % 0x40) ∷ []
    else if ltb p 0x10000
    then (0xe0 + p / 0x1000) ∷ (0x80 + p / 0x40 % 0x40) ∷ (0x80 + p % 0x40) ∷ []
    else (0xf0 + p / 0x40000)
      ∷ (0x80 + p / 0x1000 % 0x40)
      ∷ (0x80 + p / 0x40 % 0x40)
      ∷ (0x80 + p % 0x40)
      ∷ []

pub percent_all : List ℕ → Text
unfolding percent
percent_all [] = []
percent_all (o ∷ os) = percent o ++ percent_all os

percent_utf8 : ℕ → Text
unfolding percent_all utf8
percent_utf8 p = percent_all (utf8 p)

-- A code unit that stands alone; a surrogate may not.
encode_unit : ℕ → Result Text
unfolding is_unreserved percent_utf8
encode_unit c =
    if is_unreserved c
    then ok (c ∷ [])
    else if is_high c || is_low c
    then err uri_error
    else ok (percent_utf8 c)

encode_pair : ℕ → ℕ → Text
unfolding percent_utf8
encode_pair c d = percent_utf8 ((c - 0xd800) * 0x400 + (d - 0xdc00) + 0x10000)

-- What `encodeURIComponent(s)` returns; `URIError` where a surrogate has no partner.
unfoldable pub encode_uri_component : Text → Result Text
unfolding encode_unit encode_pair
encode_uri_component [] = ok []
encode_uri_component (c ∷ []) = encode_unit c
encode_uri_component (c ∷ d ∷ s) =
    let rest = encode_uri_component (d ∷ s) in
    let beyond = encode_uri_component s in
    if is_high c && is_low d
    then (do r ← beyond; ok (encode_pair c d ++ r))
    else (do u ← encode_unit c; r ← rest; ok (u ++ r))

-- The characters of an encoded component: unreserved ones, `%` and hexadecimal digits. None of
-- them is `/`, `?`, `&`, `=` or `#`, so a component cannot end early or add another.
abbrev pub IsUriChar : ℕ → Type 0
IsUriChar c = (is_unreserved c ≡ true) ⊎ (c ≡ b'%')

hex_table : all_below 16 (λ d. is_unreserved (hex_digit d)) ≡ true
unfolding all_below is_unreserved hex_digit
hex_table = refl

hex_digit-IsUriChar : (d : ℕ) → d < 16 → IsUriChar (hex_digit d)
hex_digit-IsUriChar d h = inl (all_below_sound 16 _ d hex_table h)

abbrev pub IsUriText : Text → Type 0
IsUriText = All IsUriChar

percent-IsUriText : (o : ℕ) → o < 256 → IsUriText (percent o)
unfolding percent
percent-IsUriText o h = (
  inr refl,
  (hex_digit-IsUriChar (o / 16) (omega arith), (hex_digit-IsUriChar (o % 16) (omega arith), tt)),
)

percent_all-IsUriText : (os : List ℕ) → All (λ o. o < 256) os → IsUriText (percent_all os)
unfolding percent_all
percent_all-IsUriText [] h = tt
percent_all-IsUriText (o ∷ os) h =
    All-append IsUriChar (percent o) _ (percent-IsUriText o h.0) (percent_all-IsUriText os h.1)

utf8-lt : (p : ℕ) → p < 0x110000 → All (λ o. o < 256) (utf8 p)
unfolding utf8
utf8-lt p h = ground arith

percent_utf8-IsUriText : (p : ℕ) → p < 0x110000 → IsUriText (percent_utf8 p)
unfolding percent_utf8
percent_utf8-IsUriText p h = percent_all-IsUriText (utf8 p) (utf8-lt p h)

-- Code units of 16 bits.
abbrev pub IsUtf16 : Text → Type 0
IsUtf16 = All (λ c. c < 0x10000)

encode_unit-IsUriText : (c : ℕ) → c < 0x10000 → Holds IsUriText (encode_unit c)
unfolding encode_unit
encode_unit-IsUriText c h = elim (Bool-cases (is_unreserved c)) [
  | inl a ↦ rw a (inl a, tt)
  | inr a ↦ elim (Bool-cases (is_high c || is_low c)) [
    | inl b ↦ rw (a, b) tt
    | inr b ↦ rw (a, b) (percent_utf8-IsUriText c (omega arith))
  ]
]

encode_pair-IsUriText : (c d : ℕ) → (is_high c && is_low d) ≡ true → IsUriText (encode_pair c d)
unfolding encode_pair
encode_pair-IsUriText c d h =
    percent_utf8-IsUriText ((c - 0xd800) * 0x400 + (d - 0xdc00) + 0x10000) (ground arith)

encode_uri_component-Holds : (s : Text) → IsUtf16 s → Holds IsUriText (encode_uri_component s)
unfolding encode_uri_component
encode_uri_component-Holds [] h = tt
encode_uri_component-Holds (c ∷ []) h = encode_unit-IsUriText c h.0
encode_uri_component-Holds (c ∷ d ∷ s) h = elim (Bool-cases (is_high c && is_low d)) [
  | inl a ↦ rw a (
      Holds-bind IsUriText IsUriText _ _ (encode_uri_component-Holds s h.1.1)
        (λ r q. All-append IsUriChar _ r (encode_pair-IsUriText c d a) q))
  | inr a ↦ rw a (
      Holds-bind IsUriText IsUriText _ _ (encode_unit-IsUriText c h.0) (λ u p.
        Holds-bind IsUriText IsUriText _ _ (encode_uri_component-Holds (d ∷ s) h.1)
          (λ r q. All-append IsUriChar u r p q)))
]

-- An encoded component holds none of the characters that separate the parts of a URL.
pub encode_uri_component-IsUriText :
    (s t : Text) → IsUtf16 s → encode_uri_component s ≡ ok t → IsUriText t
encode_uri_component-IsUriText s t h e =
    Holds-ok IsUriText (encode_uri_component s) (encode_uri_component-Holds s h) e

-- A string with no surrogates is always encoded.
abbrev pub NoSurrogates : Text → Type 0
NoSurrogates = All (λ c. (c < 0xd800) ⊎ (0xdfff < c))

not_surrogate : (c : ℕ) → (c < 0xd800) ⊎ (0xdfff < c) → (is_high c ≡ false) × (is_low c ≡ false)
not_surrogate c h = ground arith

encode_unit_total : (c : ℕ) → (c < 0xd800) ⊎ (0xdfff < c) → (t : Text) × (encode_unit c ≡ ok t)
unfolding encode_unit
encode_unit_total c h = elim (Bool-cases (is_unreserved c)) [
  | inl a ↦ (c ∷ [], rw a)
  | inr a ↦ let (p, q) = not_surrogate c h in (percent_utf8 c, rw (a, p, q))
]

pub encode_uri_component_total :
    (s : Text) → NoSurrogates s → (t : Text) × (encode_uri_component s ≡ ok t)
unfolding encode_uri_component
encode_uri_component_total [] h = ([], refl)
encode_uri_component_total (c ∷ []) h = encode_unit_total c h.0
encode_uri_component_total (c ∷ d ∷ s) h =
    let (u, p) = encode_unit_total c h.0 in
    let (r, q) = encode_uri_component_total (d ∷ s) h.1 in
    (u ++ r, rw (p, (not_surrogate c h.0).0, q))
