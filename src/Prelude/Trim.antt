-- ===== src/Prelude/Trim.antt =====
-- `trim` does nothing a second time.
use smart_parcel_locker.Prelude.{
  Text, trim, trim_start, is_space, false, [], ◌∷◌, ◌++◌, ◌≡◌, refl, sym, ap, ◌∙◌, Bool-cases, inl,
  inr, subst,
}
use mathlib.Core.List.{reverse, reverse-append, reverse-reverse}

-- The text is empty or begins with no space.
abbrev IsTrimmed : Text → Type 0
IsTrimmed [] = Unit
IsTrimmed (c ∷ s) = is_space c ≡ false

trim_start-IsTrimmed : (s : Text) → IsTrimmed (trim_start s)
unfolding trim_start
trim_start-IsTrimmed [] = tt
trim_start-IsTrimmed (c ∷ s) = elim (Bool-cases (is_space c)) [
  | inl space ↦ rw space (trim_start-IsTrimmed s)
  | inr other ↦ rw other other
]

trim_start_of_IsTrimmed : (s : Text) → IsTrimmed s → trim_start s ≡ s
unfolding trim_start
trim_start_of_IsTrimmed [] h = refl
trim_start_of_IsTrimmed (c ∷ s) h = rw h

IsTrimmed-of_append : (s t : Text) → IsTrimmed (s ++ t) → IsTrimmed s
IsTrimmed-of_append [] t h = tt
IsTrimmed-of_append (c ∷ s) t h = h

-- What was cut off.
cut : (s : Text) → (w : Text) × (s ≡ w ++ trim_start s)
unfolding trim_start
cut [] = ([], refl)
cut (c ∷ s) = elim (Bool-cases (is_space c)) [
  | inl space ↦ let (w, p) = cut s in (c ∷ w, rw space (ap (λ t. c ∷ t) p))
  | inr other ↦ ([], rw other)
]

reverse-cut : (u w v : Text) → reverse u ≡ w ++ v → u ≡ reverse v ++ reverse w
reverse-cut u w v p = sym (reverse-reverse u) ∙ ap reverse p ∙ reverse-append w v

kept_front : (u : Text) → IsTrimmed u → IsTrimmed (reverse (trim_start (reverse u)))
kept_front u h =
    let (w, p) = cut (reverse u) in
    IsTrimmed-of_append _ (reverse w) (subst IsTrimmed (reverse-cut u w _ p) h)

-- A text that was trimmed is not changed by trimming it again.
pub trim_again : (s : Text) → trim (trim s) ≡ trim s
unfolding trim
trim_again s =
    let v = trim_start (reverse (trim_start s)) in
    ap (λ t. reverse (trim_start (reverse t)))
      (trim_start_of_IsTrimmed (reverse v) (kept_front (trim_start s) (trim_start-IsTrimmed s)))
    ∙ ap (λ t. reverse (trim_start t)) (reverse-reverse v)
    ∙ ap reverse (trim_start_of_IsTrimmed v (trim_start-IsTrimmed (reverse (trim_start s))))
