-- ===== src/DetailPage/Polling.antt =====
-- The polling of the details of an order ends with the order.
use smart_parcel_locker.Prelude.{
  ◌∙◌, ap₂, ℕ, zero, suc, ◌+◌, truthy, Bool, true, false, Option, none, some, List, ◌≡◌, ◌≢◌, refl,
  ◌⊎◌, inl, inr, replicate, if◌then◌else◌, arith,
}
use smart_parcel_locker.Order.{OrderStatus, completed, cancelled}
use smart_parcel_locker.OrderClient.{OrderDto}
use smart_parcel_locker.OrderHook.{reload}
use smart_parcel_locker.DetailPage.{DetailPage, Event, tick, is_terminal, polls, step, run}

-- `n` ticks of the interval
abbrev pub ticks : ℕ → List Event
ticks n = replicate n tick

-- A tick keeps the order and the id, and sends a request while the order is polled.
tick-order : (s : DetailPage) → (step s tick).hook.order ≡ s.hook.order
unfolding step reload
tick-order s = ground arith

tick-order_id : (s : DetailPage) → (step s tick).order_id ≡ s.order_id
unfolding step
tick-order_id s = ground arith

tick-pending :
    (s : DetailPage)
    → truthy s.order_id ≡ true
    → (step s tick).hook.pending ≡ s.hook.pending + (if polls s.hook.order then 1 else 0)
unfolding step reload
tick-pending s named = ground arith

one_more :
    (a n : ℕ) (b : Bool)
    → a + (if b then 1 else 0) + (if b then n else 0) ≡ a + (if b then suc n else 0)
one_more a n true = omega arith
one_more a n false = omega arith

run-polls :
    (s : DetailPage) (n : ℕ)
    → truthy s.order_id ≡ true
    → (run s (ticks n)).hook.pending ≡ s.hook.pending + (if polls s.hook.order then n else 0)
unfolding run
run-polls s zero named = ground arith
run-polls s (suc n) named =
    let later = run-polls (step s tick) n (rw (tick-order_id s) named) in
    later
    ∙ ap₂ (λ a o. a + (if polls o then n else 0)) (tick-pending s named) (tick-order s)
    ∙ one_more s.hook.pending n (polls s.hook.order)

-- There is no order, or it has ended.
abbrev pub IsOver : Option OrderDto → Type 0
IsOver order =
    (order ≡ none)
    ⊎ ((o : OrderDto) × (order ≡ some o) × ((o.status ≡ completed) ⊎ (o.status ≡ cancelled)))

not_polled : (order : Option OrderDto) → IsOver order → polls order ≡ false
not_polled order (inl e) = rw e refl
not_polled order (inr (o, e, inl done)) = rw (e, done) refl
not_polled order (inr (o, e, inr dropped)) = rw (e, dropped) refl

is_open :
    (status : OrderStatus) → status ≢ completed → status ≢ cancelled → is_terminal status ≡ false
is_open status a b = ground arith

-- Where there is no order on the page, or it has been completed or cancelled, no tick of the
-- interval sends a request; while there is another order, each tick sends one.
pub run-ticks :
    (s : DetailPage) (n : ℕ)
    → truthy s.order_id ≡ true
    → (IsOver s.hook.order → (run s (ticks n)).hook.pending ≡ s.hook.pending)
      × ((o : OrderDto)
          → s.hook.order ≡ some o
          → o.status ≢ completed
          → o.status ≢ cancelled
          → (run s (ticks n)).hook.pending ≡ s.hook.pending + n)
run-ticks s n named = (
  λ over. run-polls s n named ∙ rw (not_polled s.hook.order over) (omega arith),
  λ o e a b. run-polls s n named ∙ rw (e, is_open o.status a b) refl,
)
