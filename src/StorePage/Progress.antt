-- ===== src/StorePage/Progress.antt =====
-- The user can open the door, and try again after a failure; the order on the screen is a reply of
-- the server.
use smart_parcel_locker.Prelude.{
  inr, inl, ◌⊎◌, arith, Text, true, none, some, List, [], ◌∷◌, Memᴰ, ok, err, ◌≡◌, ◌+◌,
  if◌then◌else◌, sym,
}
use smart_parcel_locker.OrderClient.{OrderDto}
use smart_parcel_locker.OrderHook.{reload, settle_reload, initial_hook, shown, content}
use smart_parcel_locker.Door.{opening, Guard, handle_action, toggle, shows_safety}
use smart_parcel_locker.StorePage.{
  StorePage, Event, reload_settled, tap_retry, tap_acknowledge, tap_action, door_settled, step,
  start, run,
}

-- The taps that open the door.
abbrev pub taps : Guard → List Event
taps g = if g.acknowledged then tap_action ∷ [] else tap_acknowledge ∷ tap_action ∷ []

-- Beside a shown order, in the phase `idle` or `failed`, the taps on the check box, unless it is
-- ticked, and on the button send one door request.
pub run-taps :
    (s : StorePage) (g : Guard) (order : OrderDto)
    → s.guard ≡ some g
    → shown s.hook ≡ content order
    → shows_safety s.phase ≡ true
    → ((run s (taps g)).phase ≡ opening) × ((run s (taps g)).requests ≡ s.requests + 1)
unfolding run step handle_action toggle
run-taps s g order p q r = ground arith

step_order :
    (s : StorePage) (e : Event) (order : OrderDto)
    → (step s e).hook.order ≡ some order
    → (s.hook.order ≡ some order) ⊎ (e ≡ reload_settled (ok order))
unfolding step handle_action reload settle_reload
step_order s (reload_settled (ok o)) order h = ground arith
step_order s (reload_settled (err f)) order h = ground arith
step_order s tap_retry order h = ground arith
step_order s tap_acknowledge order h = ground arith
step_order s tap_action order h = ground arith
step_order s (door_settled (ok o)) order h = ground arith
step_order s (door_settled (err f)) order h = ground arith

run_order :
    (s : StorePage) (es : List Event) (order : OrderDto)
    → (run s es).hook.order ≡ some order
    → (s.hook.order ≡ some order) ⊎ Memᴰ (reload_settled (ok order)) es
unfolding run
run_order s [] order h = inl h
run_order s (e ∷ es) order h = elim (run_order (step s e) es order h) [
  | inl p ↦ elim (step_order s e order p) [ inl q ↦ inl q | inr q ↦ inr (Memᴰ.head (sym q)) ]
  | inr m ↦ inr (Memᴰ.tail m)
]

start_order : (order_id : Text) → (start order_id).hook.order ≡ none
unfolding start reload initial_hook
start_order order_id = ground arith

-- An order on the page is one that the server has replied.
pub store_run-order :
    (order_id : Text) (es : List Event) (order : OrderDto)
    → (run (start order_id) es).hook.order ≡ some order
    → Memᴰ (reload_settled (ok order)) es
store_run-order order_id es order h = elim (run_order (start order_id) es order h) [
  | inl p ↦ cc (start_order order_id, p)
  | inr m ↦ m
]
