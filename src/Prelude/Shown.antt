-- ===== src/Prelude/Shown.antt =====
-- `String(n)` for a double that is a natural number, by the shortest digits that are read as it.
use Prim.Native.Nat.{ℕ, zero, suc, ◌+◌, ◌-◌, ◌*◌, ◌/◌, ◌^◌, ◌<◌}
use mathlib.Core.Path.{◌≡◌}
use mathlib.Core.Bool.{◌&&◌}
use mathlib.Core.List.{[], ◌∷◌, ◌++◌}
use smart_parcel_locker.Prelude.Tests.{ltb, lt→ltb, ◌==◌, if◌then◌else◌}
use smart_parcel_locker.Prelude.Lists.{length}
use smart_parcel_locker.Prelude.Texts.{Text, text}
use smart_parcel_locker.Prelude.Decimal.{print}
use smart_parcel_locker.Prelude.Number.{round}

-- The multiple of the largest power of ten, up to `10 ^ fuel`, that is rounded to `n`; the one next
-- to `n`, of two.
shortest : ℕ → ℕ → ℕ
shortest zero n = n
shortest (suc k) n =
    let finer = shortest k n in
    let down = n / 10 ^ suc k * 10 ^ suc k in
    let up = down + 10 ^ suc k in
    if round up == n && ltb (up - n) (n - down)
    then up
    else if round down == n
    then down
    else if round up == n
    then up
    else finer

zeros_off : ℕ → Text → Text
zeros_off c [] = if c == b'0' then [] else c ∷ []
zeros_off c (d ∷ s) = c ∷ d ∷ s

-- The digits without the zeros at their end.
significant : Text → Text
unfolding zeros_off
significant [] = []
significant (c ∷ s) = zeros_off c (significant s)

fraction : Text → Text
fraction [] = []
fraction (c ∷ s) = b'.' ∷ c ∷ s

exponential : Text → Text
unfolding significant fraction
exponential [] = []
exponential (c ∷ s) = c ∷ (fraction (significant s) ++ (text "e+" ++ print (length s)))

-- All digits are written below `10 ^ 21`, and an exponent from there on.
unfoldable pub show_natural : ℕ → Text
unfolding shortest exponential
show_natural n =
    let rounded = shortest (length (print n)) n in
    if ltb n (2 ^ 53)
    then print n
    else if ltb rounded (10 ^ 21)
    then print rounded
    else exponential (print rounded)

pub show_natural-print : (n : ℕ) → n < 2 ^ 53 → show_natural n ≡ print n
unfolding show_natural
show_natural-print n h = rw (lt→ltb n (2 ^ 53) h) (λ i. print n)
