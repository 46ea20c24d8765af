-- ===== src/PickupPage/Code.antt =====
-- What the number of the cell has to do with the door.
use smart_parcel_locker.Prelude.{
  ◌+◌, true, false, Option, none, some, ok, err, ◌≡◌, ◌≢◌, ◌⊎◌, arith,
}
use smart_parcel_locker.Door.{opening, opened, Guard, handle_action, shows_safety}
use smart_parcel_locker.PickupPage.{
  PickupPage, Event, reload_settled, tap_retry, input_code, blur_code, tap_scan, scan_settled,
  tap_acknowledge, tap_action, door_settled, code_matches, step,
}

abbrev pub IsAcknowledged : Option Guard → Type 0
IsAcknowledged none = ⊥
IsAcknowledged (some g) = g.acknowledged ≡ true

-- A step sends no door request, or it is a tap on the button of an acknowledged guard, in the
-- phase `idle` or `failed`, while the code matches the order's cell, and sends one.
pub pickup_step-requests :
    (s : PickupPage) (e : Event)
    → ((step s e).requests ≡ s.requests)
      ⊎ ((e ≡ tap_action)
          × IsAcknowledged s.guard
          × (shows_safety s.phase ≡ true)
          × (code_matches s ≡ true)
          × ((step s e).requests ≡ s.requests + 1)
          × ((step s e).phase ≡ opening))
unfolding step handle_action
pickup_step-requests s (reload_settled r) = ground arith
pickup_step-requests s tap_retry = ground arith
pickup_step-requests s (input_code d t) = ground arith
pickup_step-requests s blur_code = ground arith
pickup_step-requests s tap_scan = ground arith
pickup_step-requests s (scan_settled o) = ground arith
pickup_step-requests s tap_acknowledge = ground arith
pickup_step-requests s tap_action = ground arith
pickup_step-requests s (door_settled (ok o)) = ground arith
pickup_step-requests s (door_settled (err f)) = ground arith

-- After a step a guard is on the screen only if the code matches and the door is not open; one
-- that has just come up is not acknowledged.
pub step-guard :
    (s : PickupPage) (e : Event) (g : Guard)
    → (step s e).guard ≡ some g
    → (code_matches (step s e) ≡ true)
      × ((step s e).phase ≢ opened)
      × ((s.guard ≢ none) ⊎ (g.acknowledged ≡ false))
unfolding step
step-guard s (reload_settled r) g h = ground arith
step-guard s tap_retry g h = ground arith
step-guard s (input_code d t) g h = ground arith
step-guard s blur_code g h = ground arith
step-guard s tap_scan g h = ground arith
step-guard s (scan_settled o) g h = ground arith
step-guard s tap_acknowledge g h = ground arith
step-guard s tap_action g h = ground arith
step-guard s (door_settled r) g h = ground arith
