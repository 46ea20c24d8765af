-- ===== src/Figma/Drawing/Removal.antt =====
-- Removing nodes by a test.
use smart_parcel_locker.Prelude.{
  Bool, true, Bool-cases, List, [], ◌∷◌, ◌++◌, ◌≡◌, refl, ap, inl, inr,
}
use smart_parcel_locker.Figma.Drawing.{Node, without}

pub append_none : {A : Type 0} (xs : List A) → xs ++ [] ≡ xs
append_none [] = refl
append_none (x ∷ xs) = ap (λ rest. x ∷ rest) (append_none xs)

-- What passes one test passes the other.
unfoldable pub Implies : (Node → Bool) → (Node → Bool) → Type 0
Implies p q = (n : Node) → p n ≡ true → q n ≡ true

pub without-append :
    (p : Node → Bool) (xs ys : List Node) → without p (xs ++ ys) ≡ without p xs ++ without p ys
without-append p [] ys = refl
without-append p (x ∷ xs) ys = elim (Bool-cases (p x)) [
  | inl t ↦ rw t (without-append p xs ys)
  | inr f ↦ rw f (ap (λ rest. x ∷ rest) (without-append p xs ys))
]

-- A wider test after another.
pub without_wider :
    (p q : Node → Bool) (xs : List Node) → Implies p q → without q (without p xs) ≡ without q xs
unfolding Implies
without_wider p q [] h = refl
without_wider p q (x ∷ xs) h = elim (Bool-cases (p x)) [
  | inl t ↦ rw (t, h x t) (without_wider p q xs h)
  | inr f ↦ rw (f, without_wider p q xs h) refl
]

pub without_swap :
    (p q : Node → Bool) (xs : List Node) → without p (without q xs) ≡ without q (without p xs)
without_swap p q [] = refl
without_swap p q (x ∷ xs) = elim (Bool-cases (p x)) [
  | inl t ↦ elim (Bool-cases (q x)) [
    | inl u ↦ rw (t, u) (without_swap p q xs)
    | inr g ↦ rw (t, g, t) (without_swap p q xs)
  ]
  | inr f ↦ elim (Bool-cases (q x)) [
    | inl u ↦ rw (f, u) (without_swap p q xs)
    | inr g ↦ rw (f, g, f, without_swap p q xs) refl
  ]
]
