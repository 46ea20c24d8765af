-- ===== src/StorePage/Safety.antt =====
-- The door of a deposit opens only through the server, and only after the safety check.
use smart_parcel_locker.Prelude.{
  ◌<◌, Bool-cases, ◌+◌, Text, Bool, true, false, Option, none, some, List, [], ◌∷◌, ok, err, ◌≡◌,
  ◌≢◌, ◌⊎◌, inl, inr, arith,
}
use smart_parcel_locker.Door.{DoorPhase, opening, opened, Guard, handle_action, shows_safety}
use smart_parcel_locker.StorePage.{
  StorePage, Event, reload_settled, tap_retry, tap_acknowledge, tap_action, door_settled, step,
  start, run,
}

-- The server confirmed that the door is open.
abbrev pub confirms : Event → Bool
confirms (door_settled (ok order)) = true
confirms _ = false

step_opened :
    (s : StorePage) (e : Event)
    → (step s e).phase ≡ opened
    → (s.phase ≡ opened) ⊎ ((confirms e ≡ true) × (0 < s.in_flight))
unfolding step handle_action
step_opened s (reload_settled r) h = ground arith
step_opened s tap_retry h = ground arith
step_opened s tap_acknowledge h = ground arith
step_opened s tap_action h = ground arith
step_opened s (door_settled (ok o)) h = ground arith
step_opened s (door_settled (err f)) h = ground arith

is_open : DoorPhase → Bool
is_open opened = true
is_open _ = false

is_open_sound : (p : DoorPhase) → is_open p ≡ true → p ≡ opened
unfolding is_open
is_open_sound p h = ground arith

is_open_complete : (p : DoorPhase) → is_open p ≡ false → p ≢ opened
unfolding is_open
is_open_complete p h q = ground arith

-- At most one door request is open, and exactly one while the phase is `opening`.
abbrev pub OneRequest : StorePage → Type 0
OneRequest s = ((s.phase ≡ opening) × (s.in_flight ≡ 1)) ⊎ ((s.phase ≢ opening) × (s.in_flight ≡ 0))

step-OneRequest : (s : StorePage) (e : Event) → OneRequest s → OneRequest (step s e)
unfolding step handle_action
step-OneRequest s (reload_settled r) h = ground arith
step-OneRequest s tap_retry h = ground arith
step-OneRequest s tap_acknowledge h = ground arith
step-OneRequest s tap_action h = ground arith
step-OneRequest s (door_settled (ok o)) h = ground arith
step-OneRequest s (door_settled (err f)) h = ground arith

run-OneRequest : (s : StorePage) (es : List Event) → OneRequest s → OneRequest (run s es)
unfolding run
run-OneRequest s [] h = h
run-OneRequest s (e ∷ es) h = run-OneRequest (step s e) es (step-OneRequest s e h)

start-OneRequest : (order_id : Text) → OneRequest (start order_id)
unfolding start
start-OneRequest order_id = ground arith

-- Whatever happens on the page, a door request is open exactly while the phase is `opening`, and
-- never a second one beside it.
pub store_run-OneRequest :
    (order_id : Text) (es : List Event) → OneRequest (run (start order_id) es)
store_run-OneRequest order_id es = run-OneRequest (start order_id) es (start-OneRequest order_id)

-- Among the events there is a reply with an order, at a time when a door request is open.
abbrev pub Confirmed : StorePage → List Event → Type 0
Confirmed s [] = ⊥
Confirmed s (e ∷ es) = ((confirms e ≡ true) × (0 < s.in_flight)) ⊎ Confirmed (step s e) es

run_opened :
    (s : StorePage) (es : List Event)
    → s.phase ≢ opened
    → (run s es).phase ≡ opened
    → Confirmed s es
unfolding run
run_opened s [] closed h = absurd (closed h)
run_opened s (e ∷ es) closed h = elim (Bool-cases (is_open (step s e).phase)) [
  | inl now ↦ elim (step_opened s e (is_open_sound _ now)) [
    | inl p ↦ absurd (closed p)
    | inr confirmed ↦ inl confirmed
  ]
  | inr not_yet ↦ inr (run_opened (step s e) es (is_open_complete _ not_yet) h)
]

start-ne-opened : (order_id : Text) → (start order_id).phase ≢ opened
unfolding start
start-ne-opened order_id h = cc

-- The page shows the door as open only if, at a time when a door request was open, the server has
-- answered it with an order.
pub store_run-opened :
    (order_id : Text) (es : List Event)
    → (run (start order_id) es).phase ≡ opened
    → Confirmed (start order_id) es
store_run-opened order_id es h = run_opened (start order_id) es (start-ne-opened order_id) h

abbrev pub IsAcknowledged : Option Guard → Type 0
IsAcknowledged none = ⊥
IsAcknowledged (some g) = g.acknowledged ≡ true

-- A step sends no door request, or it is a tap on the button of an acknowledged guard, in the
-- phase `idle` or `failed`, and sends one.
pub store_step-requests :
    (s : StorePage) (e : Event)
    → ((step s e).requests ≡ s.requests)
      ⊎ ((e ≡ tap_action)
          × IsAcknowledged s.guard
          × (shows_safety s.phase ≡ true)
          × ((step s e).requests ≡ s.requests + 1)
          × ((step s e).phase ≡ opening))
unfolding step handle_action
store_step-requests s (reload_settled r) = ground arith
store_step-requests s tap_retry = ground arith
store_step-requests s tap_acknowledge = ground arith
store_step-requests s tap_action = ground arith
store_step-requests s (door_settled (ok o)) = ground arith
store_step-requests s (door_settled (err f)) = ground arith
