-- ===== src/Prelude/Uri/Decode/RoundTrip.antt =====
-- What was encoded is decoded.
use smart_parcel_locker.Prelude.{
  ◌≤◌, ℕ, ◌+◌, ◌-◌, ◌*◌, ◌/◌, ◌%◌, ◌<◌, Text, true, false, Bool-cases, ◌||◌, ◌&&◌, some, List, [],
  ◌∷◌, ◌++◌, map, ok, >>=-eq-ok, ◌≡◌, refl, subst, arith, inl, inr,
}
use mathlib.Core.List.{append-nil}
use smart_parcel_locker.Prelude.Uri.{
  encode_uri_component, encode_unit, encode_pair, percent_utf8, utf8, utf8-lt, is_unreserved,
  is_high, is_low, IsUtf16,
}
use smart_parcel_locker.Prelude.Uri.Decode.{
  drive, drive_accepted, Item, plain, octet, is_text_part, between, is_between, utf16, is_scalar,
  assemble, decode_uri_component,
}
use smart_parcel_locker.Prelude.Uri.Decode.Percents.{
  ReadsAs, percent_all-ReadsAs, unreserved-ReadsAs,
}
use smart_parcel_locker.Prelude.Uri.Decode.Points.{Makes, utf8-MakesPoint}

-- The text is read as items that make `s`.
abbrev Decodes : Text → Text → Type 0
Decodes t s = (items : List Item) × ReadsAs t items × Makes between items s

percent_utf8-Decodes :
    (p : ℕ) (t s : Text)
    → is_scalar p ≡ true
    → p < 0x110000
    → Decodes t s
    → Decodes (percent_utf8 p ++ t) (utf16 p ++ s)
unfolding percent_utf8
percent_utf8-Decodes p t s scalar h (items, r, m) = (
  map octet (utf8 p) ++ items,
  percent_all-ReadsAs (utf8 p) t items (utf8-lt p h) r,
  utf8-MakesPoint p scalar h items s m,
)

assemble_plain : (c : ℕ) → assemble between (plain c) ≡ some (between, c ∷ [])
unfolding assemble
assemble_plain c = refl

unreserved-Decodes :
    (c : ℕ) (t s : Text) → is_unreserved c ≡ true → Decodes t s → Decodes (c ∷ t) (c ∷ s)
unreserved-Decodes c t s h (items, r, m) = (
  plain c ∷ items,
  unreserved-ReadsAs c t items h r,
  drive_accepted assemble is_between _ _ _ items (c ∷ []) s (assemble_plain c) m,
)

utf16_unit : (c : ℕ) → c < 0x10000 → utf16 c ≡ c ∷ []
unfolding utf16
utf16_unit c h = ground arith

is_scalar_of_unit : (c : ℕ) → c < 0x10000 → (is_high c || is_low c) ≡ false → is_scalar c ≡ true
unfolding is_scalar
is_scalar_of_unit c below h = ground arith

encode_unit-Decodes :
    (c : ℕ) (u t s : Text)
    → c < 0x10000
    → encode_unit c ≡ ok u
    → Decodes t s
    → Decodes (u ++ t) (c ∷ s)
unfolding encode_unit
encode_unit-Decodes c u t s below h d = elim (Bool-cases (is_unreserved c)) [
  | inl plain_unit ↦
      let e : c ∷ [] ≡ u = ground arith in
      subst (λ x. Decodes (x ++ t) (c ∷ s)) e (unreserved-Decodes c t s plain_unit d)
  | inr reserved ↦ elim (Bool-cases (is_high c || is_low c)) [
    | inl surrogate ↦ cc (rw (reserved, surrogate) at h)
    | inr unit ↦
        let e : percent_utf8 c ≡ u = ground arith in
        let point = percent_utf8-Decodes c t s (is_scalar_of_unit c below unit) (omega arith) d in
        subst (λ x. Decodes (x ++ t) (c ∷ s)) e
          (subst (λ x. Decodes (percent_utf8 c ++ t) (x ++ s)) (utf16_unit c below) point)
  ]
]

point_of : ℕ → ℕ → ℕ
point_of c d = (c - 0xd800) * 0x400 + (d - 0xdc00) + 0x10000

pair_bounds :
    (c d : ℕ)
    → (is_high c && is_low d) ≡ true
    → (0xd800 ≤ c) × (c < 0xdc00) × (0xdc00 ≤ d) × (d < 0xe000)
pair_bounds c d h = ground arith

high_unit :
    (c d : ℕ) → 0xd800 ≤ c → 0xdc00 ≤ d → d < 0xe000 → 0xd800 + (point_of c d - 0x10000) / 0x400 ≡ c
unfolding point_of
high_unit c d a b e = omega arith

low_unit : (c d : ℕ) → 0xdc00 ≤ d → d < 0xe000 → 0xdc00 + (point_of c d - 0x10000) % 0x400 ≡ d
unfolding point_of
low_unit c d b e = omega arith

point_bounds :
    (c d : ℕ) → c < 0xdc00 → d < 0xe000 → (0x10000 ≤ point_of c d) × (point_of c d < 0x110000)
unfolding point_of
point_bounds c d a b = (omega arith, omega arith)

is_scalar_beyond : (p : ℕ) → 0x10000 ≤ p → p < 0x110000 → is_scalar p ≡ true
unfolding is_scalar
is_scalar_beyond p l h = ground arith

utf16_beyond :
    (p : ℕ)
    → 0x10000 ≤ p
    → utf16 p ≡ (0xd800 + (p - 0x10000) / 0x400) ∷ (0xdc00 + (p - 0x10000) % 0x400) ∷ []
unfolding utf16
utf16_beyond p l = ground arith

point_of_pair :
    (c d : ℕ)
    → (is_high c && is_low d) ≡ true
    → (is_scalar (point_of c d) ≡ true)
      × (point_of c d < 0x110000)
      × (utf16 (point_of c d) ≡ c ∷ d ∷ [])
point_of_pair c d h =
    let (c_low, c_high, d_low, d_high) = pair_bounds c d h in
    let (l, b) = point_bounds c d c_high d_high in
    (
      is_scalar_beyond (point_of c d) l b,
      b,
      rw (
        utf16_beyond (point_of c d) l,
        high_unit c d c_low d_low d_high,
        low_unit c d d_low d_high,
      ),
    )

encode_pair-Decodes :
    (c d : ℕ) (t s : Text)
    → (is_high c && is_low d) ≡ true
    → Decodes t s
    → Decodes (encode_pair c d ++ t) (c ∷ d ∷ s)
unfolding encode_pair point_of
encode_pair-Decodes c d t s h decoded =
    let (scalar, below, units) = point_of_pair c d h in
    subst (λ x. Decodes (encode_pair c d ++ t) (x ++ s)) units
      (percent_utf8-Decodes (point_of c d) t s scalar below decoded)

ok_eq : (a b : Text) → ok a ≡ ok b → a ≡ b
ok_eq a b h = ground arith

encoded-Decodes : (s t : Text) → IsUtf16 s → encode_uri_component s ≡ ok t → Decodes t s
unfolding encode_uri_component drive is_text_part is_between
encoded-Decodes [] t h e = subst (λ x. Decodes x []) (ok_eq [] t e) ([], refl, refl)
encoded-Decodes (c ∷ []) t h e =
    subst (λ x. Decodes x (c ∷ [])) (append-nil t)
      (encode_unit-Decodes c t [] [] h.0 e ([], refl, refl))
encoded-Decodes (c ∷ d ∷ s) t h e = elim (Bool-cases (is_high c && is_low d)) [
  | inl pair ↦
      let (r, p, q) = >>=-eq-ok (encode_uri_component s) _ (rw pair at e) in
      subst (λ x. Decodes x (c ∷ d ∷ s)) (ok_eq _ t q)
        (encode_pair-Decodes c d r s pair (encoded-Decodes s r h.1.1 p))
  | inr unit ↦
      let (u, p, q) = >>=-eq-ok (encode_unit c) _ (rw unit at e) in
      let (r, p', q') = >>=-eq-ok (encode_uri_component (d ∷ s)) _ q in
      subst (λ x. Decodes x (c ∷ d ∷ s)) (ok_eq _ t q')
        (encode_unit-Decodes c u r (d ∷ s) h.0 p (encoded-Decodes (d ∷ s) r h.1 p'))
]

-- What `encodeURIComponent` makes of a text of UTF-16 code units, `decodeURIComponent` turns back
-- into that text.
pub decode_uri_component-encode_uri_component :
    (s t : Text) → IsUtf16 s → encode_uri_component s ≡ ok t → decode_uri_component t ≡ ok s
unfolding decode_uri_component
decode_uri_component-encode_uri_component s t h e =
    let (items, r, m) = encoded-Decodes s t h e in rw (r, m)
