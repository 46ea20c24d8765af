-- ===== src/OrdersPage/Laws.antt =====
-- The list of orders and their count.
use smart_parcel_locker.Prelude.{
  sym, suc, ap, ℕ, true, Bool-cases, some, List, [], ◌∷◌, length, length-map, ◌∙◌, Result, ok, err,
  ◌≡◌, inl, inr, refl, ltb, arith,
}
use smart_parcel_locker.OrderClient.{OrderDto}
use smart_parcel_locker.OrdersPage.{
  OrdersState, loading, success, error, OrdersPage, Event, load_settled, tap_retry, load,
  settle_load, can_retry, step, start, run, Screen, skeleton, orders_list, orders_screen, order_row,
  MePage, settle_count,
}

-- The rows that are on the screen.
abbrev pub rows : Screen → ℕ
rows (orders_list title list) = length list
rows _ = 0

-- After the same reply, the page of the user counts as many orders as the list of orders has rows,
-- whatever the two pages showed before.
pub settle_count-rows :
    {S : Type 0} (r : Result (List OrderDto)) (me : MePage S) (page : OrdersPage)
    → (settle_count r me).order_count ≡ some (rows (orders_screen (settle_load r page).state))
unfolding settle_count settle_load orders_screen
settle_count-rows (ok []) me page = refl
settle_count-rows (ok (order ∷ rest)) me page =
    ap (λ n. some (suc n)) (sym (length-map rest order_row))
settle_count-rows (err f) me page = refl

-- The requests that are open in a state, and on a screen.
abbrev open_in : OrdersState → ℕ
open_in (loading orders) = 1
open_in _ = 0

abbrev pub open_on : Screen → ℕ
open_on skeleton = 1
open_on _ = 0

abbrev IsConsistent : OrdersPage → Type 0
IsConsistent s = s.pending ≡ open_in s.state

open_on-orders_screen : (state : OrdersState) → open_on (orders_screen state) ≡ open_in state
unfolding orders_screen
open_on-orders_screen (loading orders) = refl
open_on-orders_screen (success []) = refl
open_on-orders_screen (success (order ∷ rest)) = refl
open_on-orders_screen (error orders code trace_id) = refl

settle_load-IsConsistent :
    (r : Result (List OrderDto)) (s : OrdersPage) → IsConsistent s → IsConsistent (settle_load r s)
unfolding settle_load
settle_load-IsConsistent (ok orders) s h = ground arith
settle_load-IsConsistent (err f) s h = ground arith

load-IsConsistent :
    (s : OrdersPage) → can_retry s.state ≡ true → IsConsistent s → IsConsistent (load s)
unfolding load
load-IsConsistent s retried h = ground arith

step-IsConsistent : (s : OrdersPage) (e : Event) → IsConsistent s → IsConsistent (step s e)
unfolding step
step-IsConsistent s (load_settled r) h = elim (Bool-cases (ltb 0 s.pending)) [
  | inl waits ↦ rw waits (settle_load-IsConsistent r s h)
  | inr idle ↦ rw idle h
]
step-IsConsistent s tap_retry h = elim (Bool-cases (can_retry s.state)) [
  | inl retried ↦ rw retried (load-IsConsistent s retried h)
  | inr kept ↦ rw kept h
]

run-IsConsistent : (s : OrdersPage) (es : List Event) → IsConsistent s → IsConsistent (run s es)
unfolding run
run-IsConsistent s [] h = h
run-IsConsistent s (e ∷ es) h = run-IsConsistent (step s e) es (step-IsConsistent s e h)

start-IsConsistent : IsConsistent start
unfolding start load
start-IsConsistent = refl

-- In every run from the start, the list of orders has one request open while it shows the skeleton,
-- and none otherwise, so it neither waits in vain nor sends a second request.
pub orders_run-pending :
    (es : List Event) → (run start es).pending ≡ open_on (orders_screen (run start es).state)
orders_run-pending es =
    run-IsConsistent start es start-IsConsistent ∙ sym (open_on-orders_screen (run start es).state)
