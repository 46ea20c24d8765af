-- ===== src/Prelude/Errors.antt =====
-- Errors as values: what a function may throw, and what a promise may be rejected with.
use mathlib.Core.Path.{◌≡◌, refl}
use mathlib.Core.List.{List, [], ◌∷◌}
use mathlib.Core.Option.{Option}
use smart_parcel_locker.Prelude.Texts.{Text}

-- `AppErrorCode`
pub data AppErrorCode : Type 0 where
  network_failure not_found device_offline permission_denied unknown : AppErrorCode

-- `class AppError`
pub record AppError : Type 0 where
  pub code : AppErrorCode
  pub message : Text
  pub trace_id : Option Text

-- A thrown value: an `AppError`, an `Error` with a message, or an error of the language itself.
pub data Failure : Type 0 where
  app_error : AppError → Failure
  plain_error : Text → Failure
  uri_error type_error : Failure

pub data Result {ℓ} (A : Type ℓ) : Type ℓ where
  ok : A → Result A
  err : Failure → Result A

-- `await` in front of the rest of a function, or a call that may throw.
infixl 5 ◌>>=◌
abbrev pub ◌>>=◌ {ℓ μ} : {B : Type ℓ} {A : Type μ} → Result A → (A → Result B) → Result B
err failure >>= next = err failure
ok value >>= next = next value

-- `xs.map(f)` where `f` may throw.
abbrev pub map_result {ℓ κ} : {A : Type ℓ} {B : Type κ} → (A → Result B) → List A → Result (List B)
map_result f [] = ok []
map_result f (x ∷ xs) = do ok ((← f x) ∷ (← map_result f xs))

-- What is returned satisfies `P`.
abbrev pub Holds {ℓ κ} : {A : Type ℓ} → (A → Type κ) → Result A → Type κ
Holds P (ok a) = P a
Holds P (err e) = Unit

pub Holds-bind {ℓ κ μ} :
    {A : Type ℓ} {B : Type κ} (P : A → Type μ) (Q : B → Type μ) (m : Result A) (f : A → Result B)
    → Holds P m
    → ((a : A) → P a → Holds Q (f a))
    → Holds Q (m >>= f)
Holds-bind P Q (ok a) f h k = k a h
Holds-bind P Q (err e) f h k = tt

pub Holds-ok {ℓ κ} :
    {A : Type ℓ} (P : A → Type κ) (r : Result A) {a : A} → Holds P r → r ≡ ok a → P a
Holds-ok P r h e = rw e at h

-- What a chain returns comes from what its first part returns.
pub >>=-eq-ok {ℓ μ} :
    {B : Type ℓ} {A : Type μ} {result : B} (first : Result A) (next : A → Result B)
    → first >>= next ≡ ok result
    → (value : A) × (first ≡ ok value) × (next value ≡ ok result)
>>=-eq-ok (err failure) next returned = cc
>>=-eq-ok (ok value) next returned = (value, refl, returned)
