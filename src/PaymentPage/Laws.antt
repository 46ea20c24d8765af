-- ===== src/PaymentPage/Laws.antt =====
-- Payments are sent once, in development builds, for an order that waits for its payment.
use smart_parcel_locker.Prelude.{
  ◌+◌, Text, Bool, true, false, none, some, List, [], ◌∷◌, ok, err, ◌≡◌, refl, ◌⊎◌, inl, inr, arith,
}
use smart_parcel_locker.Order.{pending_payment}
use smart_parcel_locker.OrderClient.{OrderDto}
use smart_parcel_locker.Components.{primary_button}
use smart_parcel_locker.OrderHook.{Shown, skeleton, failure, content}
use smart_parcel_locker.PaymentPage.{
  can_pay, PaymentPage, Event, load_settled, tap_retry, tap_pay, payment_settled, step, start, run,
  page_shown,
}

-- A payment is open exactly while `paying` is set, and never a second one beside it.
abbrev pub OnePayment : PaymentPage → Type 0
OnePayment s =
    ((s.paying ≡ true) × (s.payments_open ≡ 1)) ⊎ ((s.paying ≡ false) × (s.payments_open ≡ 0))

step-OnePayment :
    (simulator : Bool) (s : PaymentPage) (e : Event)
    → OnePayment s
    → OnePayment (step simulator s e)
unfolding step
step-OnePayment b s (load_settled (ok o)) h = ground arith
step-OnePayment b s (load_settled (err f)) h = ground arith
step-OnePayment b s tap_retry h = ground arith
step-OnePayment b s tap_pay h = ground arith
step-OnePayment b s (payment_settled (ok o)) h = ground arith
step-OnePayment b s (payment_settled (err f)) h = ground arith

-- The order on the screen waits for its payment.
abbrev pub IsPayable : Shown → Type 0
IsPayable sh = (order : OrderDto) × (sh ≡ content order) × (order.status ≡ pending_payment)

IsPayable-of_can_pay :
    (b : Bool) (sh : Shown) (paying : Bool)
    → can_pay b sh paying ≡ true
    → (b ≡ true) × IsPayable sh × (paying ≡ false)
unfolding can_pay primary_button
IsPayable-of_can_pay b skeleton paying h = cc
IsPayable-of_can_pay b failure paying h = cc
IsPayable-of_can_pay b (content order) paying h =
    (ground arith, (order, refl, ground arith), ground arith)

step-tap_pay :
    (b : Bool) (s : PaymentPage)
    → ((step b s tap_pay).payments ≡ s.payments)
      ⊎ ((can_pay b (page_shown s) s.paying ≡ true)
          × ((step b s tap_pay).payments ≡ s.payments + 1))
unfolding step
step-tap_pay b s = ground arith

step-payments :
    (simulator : Bool) (s : PaymentPage) (e : Event)
    → ((step simulator s e).payments ≡ s.payments)
      ⊎ ((e ≡ tap_pay)
          × (simulator ≡ true)
          × IsPayable (page_shown s)
          × (s.paying ≡ false)
          × ((step simulator s e).payments ≡ s.payments + 1))
unfolding step
step-payments b s (load_settled (ok o)) = ground arith
step-payments b s (load_settled (err f)) = ground arith
step-payments b s tap_retry = ground arith
step-payments b s tap_pay = elim (step-tap_pay b s) [
  | inl same ↦ inl same
  | inr (can, more) ↦
      let (on, payable, idle) = IsPayable-of_can_pay b (page_shown s) s.paying can in
      inr (refl, on, payable, idle, more)
]
step-payments b s (payment_settled (ok o)) = ground arith
step-payments b s (payment_settled (err f)) = ground arith

-- A reply with this order.
abbrev pub Replies : OrderDto → Event → Type 0
Replies order e = (e ≡ load_settled (ok order)) ⊎ (e ≡ payment_settled (ok order))

step_order :
    (b : Bool) (s : PaymentPage) (e : Event) (order : OrderDto)
    → (step b s e).order ≡ some order
    → (s.order ≡ some order) ⊎ Replies order e
unfolding step
step_order b s (load_settled (ok o)) order h = ground arith
step_order b s (load_settled (err f)) order h = ground arith
step_order b s tap_retry order h = ground arith
step_order b s tap_pay order h = ground arith
step_order b s (payment_settled (ok o)) order h = ground arith
step_order b s (payment_settled (err f)) order h = ground arith

-- A reply with this order is among the events.
abbrev pub Replied : OrderDto → List Event → Type 0
Replied order [] = ⊥
Replied order (e ∷ es) = Replies order e ⊎ Replied order es

run_order :
    (b : Bool) (s : PaymentPage) (es : List Event) (order : OrderDto)
    → (run b s es).order ≡ some order
    → (s.order ≡ some order) ⊎ Replied order es
unfolding run
run_order b s [] order h = inl h
run_order b s (e ∷ es) order h = elim (run_order b (step b s e) es order h) [
  | inl p ↦ elim (step_order b s e order p) [ inl q ↦ inl q | inr q ↦ inr (inl q) ]
  | inr m ↦ inr (inr m)
]

start_order : (order_id : Text) → (start order_id).order ≡ none
unfolding start
start_order order_id = ground arith

-- An order on the page is one that the server has replied, to a load or to a payment.
pub payment_run-order :
    (b : Bool) (order_id : Text) (es : List Event) (order : OrderDto)
    → (run b (start order_id) es).order ≡ some order
    → Replied order es
payment_run-order b order_id es order h = elim (run_order b (start order_id) es order h) [
  | inl p ↦ cc (start_order order_id, p)
  | inr m ↦ m
]

run-OnePayment :
    (b : Bool) (s : PaymentPage) (es : List Event) → OnePayment s → OnePayment (run b s es)
unfolding run
run-OnePayment b s [] h = h
run-OnePayment b s (e ∷ es) h = run-OnePayment b (step b s e) es (step-OnePayment b s e h)

start-OnePayment : (order_id : Text) → OnePayment (start order_id)
unfolding start
start-OnePayment order_id = ground arith

-- Whatever happens on the page, a payment is open exactly while `paying` is set, and never a second
-- one beside it.
pub run-start-OnePayment :
    (b : Bool) (order_id : Text) (es : List Event) → OnePayment (run b (start order_id) es)
run-start-OnePayment b order_id es =
    run-OnePayment b (start order_id) es (start-OnePayment order_id)

-- A step sends no payment, or it is a tap on the button of the simulator, for an order that waits
-- for its payment while no payment is open.
abbrev pub Sends : Bool → PaymentPage → Event → Type 0
Sends simulator s e =
    ((step simulator s e).payments ≡ s.payments)
    ⊎ ((e ≡ tap_pay)
        × (simulator ≡ true)
        × IsPayable (page_shown s)
        × (s.payments_open ≡ 0)
        × ((step simulator s e).payments ≡ s.payments + 1))

none_open : (s : PaymentPage) → OnePayment s → s.paying ≡ false → s.payments_open ≡ 0
none_open s h idle = ground arith

-- Whatever has happened on the page, a step sends no payment, or it is a tap on the button of the
-- simulator, for an order on the screen that waits for its payment while no payment is open, and
-- sends one.
pub payment_run-payments :
    (simulator : Bool) (order_id : Text) (es : List Event) (e : Event)
    → Sends simulator (run simulator (start order_id) es) e
payment_run-payments b order_id es e =
    let s = run b (start order_id) es in
    elim (step-payments b s e) [
      | inl same ↦ inl same
      | inr (tapped, on, payable, idle, more) ↦
          inr (tapped, on, payable, none_open s (run-start-OnePayment b order_id es) idle, more)
    ]
