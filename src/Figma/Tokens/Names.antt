-- ===== src/Figma/Tokens/Names.antt =====
-- Names that occur once.
use smart_parcel_locker.Prelude.{
  text_eq-ne, text_eq_refl, ◌≤◌, ltb, Text, text_eq, text_eq_iff, false, All, List, [], ◌∷◌, Memᴰ,
  ◌≡◌, ◌↔◌, inl, inr, refl, sym, arith, Bool-cases,
}
use smart_parcel_locker.Figma.Tokens.{occurrences}
use smart_parcel_locker.Figma.Tokens.Lists.{Memᴰ-cons}

-- No two names of a list are equal.
abbrev pub Distinct : List Text → Type 0
Distinct [] = Unit
Distinct (name ∷ rest) = (Memᴰ name rest → ⊥) × Distinct rest

absent_iff :
    (name : Text) (names : List Text) → (occurrences name names ≡ 0) ↔ (Memᴰ name names → ⊥)
unfolding occurrences
absent_iff name [] = (λ h m. elim m [ ], λ h. refl)
absent_iff name (other ∷ rest) = elim (Bool-cases (text_eq other name)) [
  | inl t ↦ (
    λ h. absurd (omega (arith, (rw t at h))),
    λ h. absurd (h (Memᴰ.head (sym ((text_eq_iff other name).0 t)))),
  )
  | inr f ↦ (
    λ h m. elim (Memᴰ-cons name other rest m) [
      | inl e ↦ text_eq-ne other name f (sym e)
      | inr later ↦ (absent_iff name rest).0 (rw f at h) later
    ],
    λ h. rw f ((absent_iff name rest).1 (λ m. h (Memᴰ.tail m))),
  )
]

fewer :
    (name other : Text) (rest : List Text) → occurrences name rest ≤ occurrences name (other ∷ rest)
unfolding occurrences
fewer name other rest = ground arith

-- Each name of a part of the list occurs once in the list.
abbrev Once : List Text → List Text → Type 0
Once names part = All (λ (name : Text). ltb 1 (occurrences name names) ≡ false) part

at_most_once :
    (names : List Text) → Distinct names → (name : Text) → ltb 1 (occurrences name names) ≡ false
unfolding occurrences
at_most_once [] d name = refl
at_most_once (other ∷ rest) (absent, d) name = elim (Bool-cases (text_eq other name)) [
  | inl t ↦ ground (arith, (absent_iff other rest).1 absent, (text_eq_iff other name).0 t)
  | inr f ↦ rw f (at_most_once rest d name)
]

Once-all : (names part : List Text) → Distinct names → Once names part
Once-all names [] d = tt
Once-all names (name ∷ part) d = (at_most_once names d name, Once-all names part d)

Once-smaller :
    (names : List Text) (other : Text) (part : List Text)
    → Once (other ∷ names) part
    → Once names part
Once-smaller names other [] h = tt
Once-smaller names other (name ∷ part) (p, ps) =
    (ground (arith, fewer name other names), Once-smaller names other part ps)

head_once :
    (name : Text) (rest : List Text)
    → ltb 1 (occurrences name (name ∷ rest)) ≡ false
    → occurrences name rest ≡ 0
unfolding occurrences
head_once name rest h = ground (arith, text_eq_refl name)

pub Once-iff : (names : List Text) → Once names names ↔ Distinct names
Once-iff names = (distinct names, λ d. Once-all names names d)
  where
    distinct : (names : List Text) → Once names names → Distinct names
    distinct [] h = tt
    distinct (name ∷ rest) (p, ps) = (
      (absent_iff name rest).0 (head_once name rest p),
      distinct rest (Once-smaller rest name rest ps),
    )
