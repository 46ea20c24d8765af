-- ===== src/SiteView/Distance.antt =====
-- The distance that a card shows is the distance, to the nearest tenth of a kilometre.
use smart_parcel_locker.Prelude.{
  true, ℕ, zero, suc, ◌+◌, ◌-◌, ◌*◌, ◌/◌, ◌%◌, ◌^◌, ◌≤◌, ◌<◌, text, some, ◌∷◌, ◌++◌, ◌≡◌, arith,
  Bool-cases, inl, inr, ltb,
}
use native.Mathlib.Nat.{lt_of_mul-lt-mul_left, pow-le-pow_right, div-add-mod, mod-lt}
use smart_parcel_locker.Prelude.Int.{pos}
use smart_parcel_locker.Prelude.Number.{int, safe, nearest}
use smart_parcel_locker.Prelude.Decimal.{print}
use smart_parcel_locker.Prelude.Floats.{Floats}
use smart_parcel_locker.SiteView.{distance_label, tenths, tenths_at, scaled_quotient, point_bits}

nearest_thousand :
    (q : ℕ)
    → (1000 * (nearest 1000 q / 1000) ≤ q + 500) × (q ≤ 1000 * (nearest 1000 q / 1000) + 500)
unfolding nearest
nearest_thousand q = ground arith

first_wide : (e n : ℕ) → e ≡ 8 → n < 2 ^ 53 → ltb n (1000 * 2 ^ (52 - e)) ≡ true
first_wide e n p l = rw p (ground arith)

point_bits-bound : (e n : ℕ) → 9 ≤ e → n < 2 ^ 53 → 9 ≤ point_bits e n
unfolding point_bits
point_bits-bound zero n h l = absurd (omega arith)
point_bits-bound (suc e) n h l = elim (Bool-cases (ltb 8 e)) [
  | inl wide ↦ ground (arith, point_bits-bound e n)
  | inr near ↦ rw (first_wide e n (ground arith) l) h
]

lt_of_scaled : (p a b : ℕ) → p * a < p * b → a < b
lt_of_scaled p a b h = lt_of_mul-lt-mul_left p h

-- Half a tenth of rounding, and what the double is off by, are less than 51 metres.
tenths_within :
    (n p m k : ℕ)
    → 500 < p
    → 1000 * m ≤ n * p + 500
    → n * p ≤ 1000 * m + 500
    → 2 * p * k ≤ 20 * m + p
    → 20 * m + p < 2 * p * k + 2 * p
    → (100 * k ≤ n + 50) × (n ≤ 100 * k + 50)
tenths_within n p m k a b c d e =
    let low : 100 * k < n + 51 = lt_of_scaled p (100 * k) (n + 51) (grind arith) in
    let high : n < 100 * k + 51 = lt_of_scaled p n (100 * k + 51) (grind arith) in
    (omega arith, omega arith)

pow_above : (e : ℕ) → 9 ≤ e → 500 < 2 ^ e
pow_above e h = let above : 2 ^ 9 ≤ 2 ^ e = pow-le-pow_right (omega arith) h in omega arith

quotient_parts : (a b : ℕ) → 0 < b → (b * (a / b) ≤ a) × (a < b * (a / b) + b)
quotient_parts a b h = omega (arith, div-add-mod a b, mod-lt a h)

tenths_at_within :
    (e n : ℕ) → 9 ≤ e → (100 * tenths_at e n ≤ n + 50) × (n ≤ 100 * tenths_at e n + 50)
unfolding tenths_at scaled_quotient
tenths_at_within e n h =
    let (a, b) = nearest_thousand (n * 2 ^ e) in
    let (c, d) =
      quotient_parts (20 * scaled_quotient e n + 2 ^ e) (2 * 2 ^ e)
        (omega (arith, pow_above e h)) in
    tenths_within n (2 ^ e) (scaled_quotient e n) (tenths_at e n) (pow_above e h) a b c d

-- From one kilometre on, up to the largest safe integer, a card shows a number of kilometres to
-- one place that is within fifty metres of the distance.
pub distance_label_within :
    (f : Floats) (n : ℕ)
    → 1000 ≤ n
    → n ≤ safe
    → (k : ℕ) × (distance_label f (some (int (pos n)))
        ≡ print (k / 10) ++ (b'.' ∷ (print (k % 10) ++ text "km")))
      × (100 * k ≤ n + 50)
      × (n ≤ 100 * k + 50)
unfolding distance_label tenths
distance_label_within f n far h =
    let (a, b) =
      tenths_at_within (point_bits 52 n) n (point_bits-bound 52 n (omega arith) (omega arith)) in
    (tenths n, ground arith, a, b)
