-- ===== src/OverduePage/Laws.antt =====
-- A settlement is sent once, in development builds, for an overdue order.
use smart_parcel_locker.Prelude.{
  ◌+◌, Text, Bool, true, false, List, [], ◌∷◌, ok, err, ◌≡◌, ◌≢◌, refl, ◌⊎◌, inl, inr, arith,
}
use smart_parcel_locker.Order.{overdue}
use smart_parcel_locker.OrderClient.{OrderDto}
use smart_parcel_locker.Components.{primary_button}
use smart_parcel_locker.OrderHook.{Shown, skeleton, failure, content, shown}
use smart_parcel_locker.OverduePage.{
  OverduePage, Event, reload_settled, own_reload_settled, tap_retry, tap_settle, settlement_settled,
  nothing, step, start, run, can_settle,
}

-- The order on the screen is overdue.
abbrev pub IsOverdue : Shown → Type 0
IsOverdue sh = (order : OrderDto) × (sh ≡ content order) × (order.status ≡ overdue)

IsOverdue-of_can_settle :
    (b : Bool) (sh : Shown) (settling : Bool)
    → can_settle b sh settling ≡ true
    → (b ≡ true) × IsOverdue sh × (settling ≡ false)
unfolding can_settle primary_button
IsOverdue-of_can_settle b skeleton settling h = cc
IsOverdue-of_can_settle b failure settling h = cc
IsOverdue-of_can_settle b (content order) settling h =
    (ground arith, (order, refl, ground arith), ground arith)

step-tap_settle :
    (b : Bool) (s : OverduePage)
    → ((step b s tap_settle).settlements ≡ s.settlements)
      ⊎ ((can_settle b (shown s.hook) s.settling ≡ true)
          × ((step b s tap_settle).settlements ≡ s.settlements + 1))
unfolding step
step-tap_settle b s = ground arith

step-settlements :
    (simulator : Bool) (s : OverduePage) (e : Event)
    → ((step simulator s e).settlements ≡ s.settlements)
      ⊎ ((e ≡ tap_settle)
          × (simulator ≡ true)
          × IsOverdue (shown s.hook)
          × (s.settling ≡ false)
          × ((step simulator s e).settlements ≡ s.settlements + 1))
unfolding step
step-settlements b s (reload_settled r) = ground arith
step-settlements b s (own_reload_settled r) = ground arith
step-settlements b s tap_retry = ground arith
step-settlements b s tap_settle = elim (step-tap_settle b s) [
  | inl same ↦ inl same
  | inr (can, more) ↦
      let (on, late, idle) = IsOverdue-of_can_settle b (shown s.hook) s.settling can in
      inr (refl, on, late, idle, more)
]
step-settlements b s (settlement_settled (ok o)) = ground arith
step-settlements b s (settlement_settled (err f)) = ground arith

-- `settling` is set exactly while the handler waits, for the settlement or for the reload behind it.
abbrev pub Busy : OverduePage → Type 0
Busy s =
    ((s.settling ≡ true) × (s.waiting ≢ nothing)) ⊎ ((s.settling ≡ false) × (s.waiting ≡ nothing))

step-Busy : (b : Bool) (s : OverduePage) (e : Event) → Busy s → Busy (step b s e)
unfolding step
step-Busy b s (reload_settled r) h = ground arith
step-Busy b s (own_reload_settled r) h = ground arith
step-Busy b s tap_retry h = ground arith
step-Busy b s tap_settle h = ground arith
step-Busy b s (settlement_settled (ok o)) h = ground arith
step-Busy b s (settlement_settled (err f)) h = ground arith

run-Busy : (b : Bool) (s : OverduePage) (es : List Event) → Busy s → Busy (run b s es)
unfolding run
run-Busy b s [] h = h
run-Busy b s (e ∷ es) h = run-Busy b (step b s e) es (step-Busy b s e h)

start-Busy : (order_id : Text) → Busy (start order_id)
unfolding start
start-Busy order_id = ground arith

-- Whatever happens on the page, `settling` is set exactly while the handler waits, for the one
-- settlement or for the reload behind it.
pub overdue_run-Busy :
    (b : Bool) (order_id : Text) (es : List Event) → Busy (run b (start order_id) es)
overdue_run-Busy b order_id es = run-Busy b (start order_id) es (start-Busy order_id)

-- A step sends no settlement, or it is a tap on the button of the simulator, for an overdue order
-- while no settlement, nor the reload behind one, is open.
abbrev pub Sends : Bool → OverduePage → Event → Type 0
Sends simulator s e =
    ((step simulator s e).settlements ≡ s.settlements)
    ⊎ ((e ≡ tap_settle)
        × (simulator ≡ true)
        × IsOverdue (shown s.hook)
        × (s.waiting ≡ nothing)
        × ((step simulator s e).settlements ≡ s.settlements + 1))

none_open : (s : OverduePage) → Busy s → s.settling ≡ false → s.waiting ≡ nothing
none_open s h idle = ground arith

-- Whatever has happened on the page, a step sends no settlement, or it is a tap on the button of
-- the simulator, for an overdue order on the screen while no settlement, nor the reload behind one,
-- is open, and sends one.
pub overdue_run-settlements :
    (simulator : Bool) (order_id : Text) (es : List Event) (e : Event)
    → Sends simulator (run simulator (start order_id) es) e
overdue_run-settlements b order_id es e =
    let s = run b (start order_id) es in
    elim (step-settlements b s e) [
      | inl same ↦ inl same
      | inr (tapped, on, late, idle, more) ↦
          inr (tapped, on, late, none_open s (overdue_run-Busy b order_id es) idle, more)
    ]
