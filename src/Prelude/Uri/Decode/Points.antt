-- ===== src/Prelude/Uri/Decode/Points.antt =====
-- The second machine makes a code point of its octets.
use smart_parcel_locker.Prelude.{
  ◌≤◌, ℕ, suc, ◌+◌, ◌-◌, ◌*◌, ◌/◌, ◌%◌, ◌<◌, Text, true, Bool-cases, ◌&&◌, ltb, leb, some, List, [],
  ◌∷◌, ◌++◌, map, ok, ◌≡◌, arith, inl, inr,
}
use smart_parcel_locker.Prelude.Uri.{utf8}
use smart_parcel_locker.Prelude.Uri.Decode.{
  drive, drive_accepted, Item, octet, Sequence, between, within, is_between, utf16, first_octet,
  is_scalar, next_octet, assemble,
}

-- The items make the text.
abbrev pub Makes : Sequence → List Item → Text → Type 0
Makes e items s = drive assemble is_between e items ≡ ok s

is_continuation : (r : ℕ) → r < 0x40 → (leb 0x80 (0x80 + r) && ltb (0x80 + r) 0xc0) ≡ true
is_continuation r h = ground arith

less_mark : (r : ℕ) → (0x80 + r) - 0x80 ≡ r
less_mark r = omega arith

middle_octet :
    (n v r least : ℕ)
    → r < 0x40
    → assemble (within (suc n) v least) (octet (0x80 + r))
      ≡ some (within n (v * 0x40 + r) least, [])
unfolding assemble next_octet
middle_octet n v r least h = rw (is_continuation r h, less_mark r)

last_octet :
    (p v r least : ℕ)
    → r < 0x40
    → v * 0x40 + r ≡ p
    → leb least p ≡ true
    → is_scalar p ≡ true
    → assemble (within 0 v least) (octet (0x80 + r)) ≡ some (between, utf16 p)
unfolding assemble next_octet
last_octet p v r least h e long scalar = rw (is_continuation r h, less_mark r, e, long, scalar)

Makes-next :
    (e next : Sequence) (o : ℕ) (items : List Item) (s : Text)
    → assemble e (octet o) ≡ some (next, [])
    → Makes next items s
    → Makes e (octet o ∷ items) s
Makes-next e next o items s h m = drive_accepted assemble is_between e next (octet o) items [] s h m

Makes-last :
    (e : Sequence) (o : ℕ) (items : List Item) (out s : Text)
    → assemble e (octet o) ≡ some (between, out)
    → Makes between items s
    → Makes e (octet o ∷ items) (out ++ s)
Makes-last e o items out s h m =
    drive_accepted assemble is_between e between (octet o) items out s h m

-- The octets of a code point, by their number, and what the first one starts.
utf8_one : (p : ℕ) → p < 0x80 → utf8 p ≡ p ∷ []
unfolding utf8
utf8_one p h = ground arith

utf8_two : (p : ℕ) → 0x80 ≤ p → p < 0x800 → utf8 p ≡ (0xc0 + p / 0x40) ∷ (0x80 + p % 0x40) ∷ []
unfolding utf8
utf8_two p l h = ground arith

utf8_three :
    (p : ℕ)
    → 0x800 ≤ p
    → p < 0x10000
    → utf8 p ≡ (0xe0 + p / 0x1000) ∷ (0x80 + p / 0x40 % 0x40) ∷ (0x80 + p % 0x40) ∷ []
unfolding utf8
utf8_three p l h = ground arith

utf8_four :
    (p : ℕ)
    → 0x10000 ≤ p
    → utf8 p
      ≡ (0xf0 + p / 0x40000)
        ∷ (0x80 + p / 0x1000 % 0x40)
        ∷ (0x80 + p / 0x40 % 0x40)
        ∷ (0x80 + p % 0x40)
        ∷ []
unfolding utf8
utf8_four p l = ground arith

starts_one : (p : ℕ) → p < 0x80 → assemble between (octet p) ≡ some (between, utf16 p)
unfolding assemble first_octet utf16
starts_one p h = ground arith

starts_two : (q : ℕ) → q < 0x20 → assemble between (octet (0xc0 + q)) ≡ some (within 0 q 0x80, [])
unfolding assemble first_octet
starts_two q h = ground arith

starts_three :
    (q : ℕ) → q < 0x10 → assemble between (octet (0xe0 + q)) ≡ some (within 1 q 0x800, [])
unfolding assemble first_octet
starts_three q h = ground arith

starts_four : (q : ℕ) → q < 8 → assemble between (octet (0xf0 + q)) ≡ some (within 2 q 0x10000, [])
unfolding assemble first_octet
starts_four q h = ground arith

abbrev pub MakesPoint : ℕ → Type 0
MakesPoint p =
    (items : List Item) (s : Text)
    → Makes between items s
    → Makes between (map octet (utf8 p) ++ items) (utf16 p ++ s)

one_octet : (p : ℕ) → p < 0x80 → MakesPoint p
one_octet p h items s m =
    rw (utf8_one p h) (Makes-last between p items (utf16 p) s (starts_one p h) m)

two_octets : (p : ℕ) → 0x80 ≤ p → p < 0x800 → is_scalar p ≡ true → MakesPoint p
two_octets p l h scalar items s m =
    let final =
      last_octet p (p / 0x40) (p % 0x40) 0x80 (omega arith) (omega arith) (ground arith) scalar in
    rw (utf8_two p l h) (
      Makes-next _ _ _ _ _ (starts_two (p / 0x40) (omega arith))
        (Makes-last _ _ items (utf16 p) s final m))

three_octets : (p : ℕ) → 0x800 ≤ p → p < 0x10000 → is_scalar p ≡ true → MakesPoint p
three_octets p l h scalar items s m =
    let v = p / 0x1000 * 0x40 + p / 0x40 % 0x40 in
    let middle = middle_octet 0 (p / 0x1000) (p / 0x40 % 0x40) 0x800 (omega arith) in
    let final = last_octet p v (p % 0x40) 0x800 (omega arith) (omega arith) (ground arith) scalar in
    rw (utf8_three p l h) (
      Makes-next _ _ _ _ _ (starts_three (p / 0x1000) (omega arith))
        (Makes-next _ _ _ _ _ middle (Makes-last _ _ items (utf16 p) s final m)))

four_octets : (p : ℕ) → 0x10000 ≤ p → p < 0x110000 → is_scalar p ≡ true → MakesPoint p
four_octets p l h scalar items s m =
    let u = p / 0x40000 * 0x40 + p / 0x1000 % 0x40 in
    let v = u * 0x40 + p / 0x40 % 0x40 in
    let second = middle_octet 1 (p / 0x40000) (p / 0x1000 % 0x40) 0x10000 (omega arith) in
    let third = middle_octet 0 u (p / 0x40 % 0x40) 0x10000 (omega arith) in
    let final =
      last_octet p v (p % 0x40) 0x10000 (omega arith) (omega arith) (ground arith) scalar in
    rw (utf8_four p l) (
      Makes-next _ _ _ _ _ (starts_four (p / 0x40000) (omega arith)) (
        Makes-next _ _ _ _ _ second
          (Makes-next _ _ _ _ _ third (Makes-last _ _ items (utf16 p) s final m))))

-- The octets of a code point that is no surrogate make its code units.
pub utf8-MakesPoint : (p : ℕ) → is_scalar p ≡ true → p < 0x110000 → MakesPoint p
utf8-MakesPoint p scalar h = elim (Bool-cases (ltb p 0x80)) [
  | inl one ↦ one_octet p (ground arith)
  | inr more ↦ elim (Bool-cases (ltb p 0x800)) [
    | inl two ↦ two_octets p (ground arith) (ground arith) scalar
    | inr still ↦ elim (Bool-cases (ltb p 0x10000)) [
      | inl three ↦ three_octets p (ground arith) (ground arith) scalar
      | inr four ↦ four_octets p (ground arith) h scalar
    ]
  ]
]
