-- ===== src/Figma/Tokens/Lists.antt =====
-- When a list of errors is empty, and when a list passes a test.
use smart_parcel_locker.Prelude.{
  Text, Bool, true, false, not, ◌||◌, any, All, List, [], ◌∷◌, ◌++◌, Memᴰ, ◌≡◌, ◌↔◌, ◌⊎◌, inl, inr,
  refl, arith, Bool-cases,
}
use smart_parcel_locker.Figma.Catalog.{distinct}
use smart_parcel_locker.Figma.Tokens.{error_if, errors_of}

pub error_if_iff :
    (broken : Bool) (message : Text) → (error_if broken message ≡ []) ↔ (broken ≡ false)
unfolding error_if
error_if_iff true message = (λ h. cc (h), λ h. cc (h))
error_if_iff false message = (λ h. refl, λ h. refl)

pub append_iff : (xs ys : List Text) → (xs ++ ys ≡ []) ↔ ((xs ≡ []) × (ys ≡ []))
append_iff [] ys = (λ h. (refl, h), λ (a, b). b)
append_iff (x ∷ xs) ys = (λ h. cc (h), λ (a, b). cc (a))

pub trans_iff : {A B C : Type 0} → A ↔ B → B ↔ C → A ↔ C
trans_iff (f, g) (h, k) = (λ a. h (f a), λ c. g (k c))

-- Two parts of the errors, each with what it rules out.
pub both_iff :
    {P Q : Type 0} (xs ys : List Text) → (xs ≡ []) ↔ P → (ys ≡ []) ↔ Q → (xs ++ ys ≡ []) ↔ (P × Q)
both_iff xs ys p q = (
  λ h. let (a, b) = (append_iff xs ys).0 h in (p.0 a, q.0 b),
  λ (a, b). (append_iff xs ys).1 (p.1 a, q.1 b),
)

pub errors_of_iff :
    {A : Type 0} (f : A → List Text) (xs : List A)
    → (errors_of f xs ≡ []) ↔ All (λ (a : A). f a ≡ []) xs
unfolding errors_of
errors_of_iff f [] = (λ h. tt, λ h. refl)
errors_of_iff f (x ∷ xs) = (
  λ h. let (a, b) = (append_iff (f x) (errors_of f xs)).0 h in (a, (errors_of_iff f xs).0 b),
  λ (a, b). (append_iff (f x) (errors_of f xs)).1 (a, (errors_of_iff f xs).1 b),
)

pub All-iff :
    {A : Type 0} (P Q : A → Type 0) (xs : List A) → ((a : A) → P a ↔ Q a) → All P xs ↔ All Q xs
All-iff P Q [] h = (λ u. u, λ u. u)
All-iff P Q (x ∷ xs) h = (
  λ (p, ps). ((h x).0 p, (All-iff P Q xs h).0 ps),
  λ (q, qs). ((h x).1 q, (All-iff P Q xs h).1 qs),
)

pub distinct_iff : (xs : List Text) → (distinct [] xs ≡ []) ↔ (xs ≡ [])
unfolding distinct
distinct_iff [] = (λ h. h, λ h. h)
distinct_iff (x ∷ xs) = (λ h. cc (h), λ h. cc (h))

pub Memᴰ-cons : {A : Type 0} (a x : A) (xs : List A) → Memᴰ a (x ∷ xs) → (a ≡ x) ⊎ Memᴰ a xs
Memᴰ-cons a x xs (Memᴰ.head e) = inl e
Memᴰ-cons a x xs (Memᴰ.tail m) = inr m

pub or_false : (a b : Bool) → (a || b) ≡ false → (a ≡ false) × (b ≡ false)
or_false a b h = ground arith

pub or_true : (a b : Bool) → b ≡ true → (a || b) ≡ true
or_true a b h = ground arith

pub not-false : (b : Bool) → not b ≡ false → b ≡ true
not-false b h = ground arith

pub false_ne : true ≡ false → ⊥
false_ne h = ground arith

pub any-false_iff :
    {A : Type 0} (p : A → Bool) (xs : List A)
    → (any p xs ≡ false) ↔ ((a : A) → Memᴰ a xs → p a ≡ false)
any-false_iff p [] = (λ h a m. elim m [ ], λ h. refl)
any-false_iff p (x ∷ xs) = (
  λ h a m. elim (Memᴰ-cons a x xs m) [
    | inl e ↦ rw e (or_false (p x) (any p xs) h).0
    | inr later ↦ (any-false_iff p xs).0 (or_false (p x) (any p xs) h).1 a later
  ],
  λ h. rw (h x (Memᴰ.head refl), (any-false_iff p xs).1 (λ a m. h a (Memᴰ.tail m))) refl,
)

pub any-true_iff :
    {A : Type 0} (a : A) (p : A → Bool) (xs : List A)
    → ((b : A) → (p b ≡ true) ↔ (a ≡ b))
    → (any p xs ≡ true) ↔ Memᴰ a xs
any-true_iff a p [] h = (λ e. cc (e), λ m. elim m [ ])
any-true_iff a p (x ∷ xs) h = (
  λ e. elim (Bool-cases (p x)) [
    | inl here ↦ Memᴰ.head ((h x).0 here)
    | inr other ↦ Memᴰ.tail ((any-true_iff a p xs h).0 (rw other at e))
  ],
  λ m. elim (Memᴰ-cons a x xs m) [
    | inl e ↦ rw ((h x).1 e) refl
    | inr later ↦ or_true (p x) (any p xs) ((any-true_iff a p xs h).1 later)
  ],
)
