-- ===== src/Tests/Doors.antt =====
-- Runs of the two pages that open a door, at concrete events.
use smart_parcel_locker.Prelude.{
  ◌+◌, text, text_eq, trim, true, none, some, List, [], ◌∷◌, ok, ◌≡◌, refl, ◌⊎◌,
}
use smart_parcel_locker.Order.{awaiting_deposit}
use smart_parcel_locker.OrderClient.{OrderDto}
use smart_parcel_locker.OrderHook.{shown, reload, initial_hook, settle_reload}
use smart_parcel_locker.Door.{Guard, opening, shows_safety, handle_action, toggle, fresh_guard}
use smart_parcel_locker.StorePage
use smart_parcel_locker.StorePage.Safety.{
  store_run-opened, store_run-OneRequest, store_step-requests,
}
use smart_parcel_locker.StorePage.Progress.{run-taps, taps}
use smart_parcel_locker.PickupPage
use smart_parcel_locker.PickupPage.Safety.{pickup_run-opened, pickup_run-OneRequest}
use smart_parcel_locker.PickupPage.Code.{pickup_step-requests, step-guard}
use smart_parcel_locker.Tests.Sample.{order_with, order_id}

abbrev order : OrderDto
order = order_with awaiting_deposit

-- The door for a deposit: the order arrives, the check is ticked, the door opens.
abbrev deposit_shown : StorePage.StorePage
deposit_shown =
    StorePage.run (StorePage.start order_id) (StorePage.Event.reload_settled (ok order) ∷ [])

abbrev deposit_checked : StorePage.StorePage
deposit_checked = StorePage.step deposit_shown StorePage.Event.tap_acknowledge

abbrev deposit : List StorePage.Event
deposit =
    StorePage.Event.reload_settled (ok order)
    ∷ StorePage.Event.tap_acknowledge
    ∷ StorePage.Event.tap_action
    ∷ StorePage.Event.door_settled (ok order)
    ∷ []

store_run-opened_example : StorePage.Safety.Confirmed (StorePage.start order_id) deposit
unfolding StorePage.run StorePage.step StorePage.start reload initial_hook settle_reload
    handle_action toggle fresh_guard shown text
store_run-opened_example = store_run-opened order_id deposit refl

store_step-requests_example :
    ((StorePage.step deposit_checked StorePage.Event.tap_action).requests
      ≡ deposit_checked.requests)
    ⊎ ((StorePage.Event.tap_action ≡ StorePage.Event.tap_action)
        × StorePage.Safety.IsAcknowledged deposit_checked.guard
        × (shows_safety deposit_checked.phase ≡ true)
        × ((StorePage.step deposit_checked StorePage.Event.tap_action).requests
            ≡ deposit_checked.requests + 1)
        × ((StorePage.step deposit_checked StorePage.Event.tap_action).phase ≡ opening))
store_step-requests_example = store_step-requests deposit_checked StorePage.Event.tap_action

deposit_sends_once : (StorePage.run (StorePage.start order_id) deposit).requests ≡ 1
unfolding StorePage.run StorePage.step StorePage.start reload initial_hook settle_reload
    handle_action toggle fresh_guard shown text
deposit_sends_once = refl

run-taps_example :
    ((StorePage.run deposit_shown (taps fresh_guard)).phase ≡ opening)
    × ((StorePage.run deposit_shown (taps fresh_guard)).requests ≡ deposit_shown.requests + 1)
unfolding StorePage.run StorePage.step StorePage.start reload initial_hook settle_reload
    handle_action toggle fresh_guard shown text
run-taps_example = run-taps deposit_shown fresh_guard order refl refl refl

-- The door for the pick-up: the number of the cell is entered first.
abbrev pickup_shown : PickupPage.PickupPage
pickup_shown = PickupPage.run (PickupPage.start order_id) (
    PickupPage.Event.reload_settled (ok order)
    ∷ PickupPage.Event.input_code (some (text " A01")) none
    ∷ PickupPage.Event.tap_acknowledge
    ∷ [])

abbrev pickup : List PickupPage.Event
pickup =
    PickupPage.Event.reload_settled (ok order)
    ∷ PickupPage.Event.input_code (some (text " A01")) none
    ∷ PickupPage.Event.tap_acknowledge
    ∷ PickupPage.Event.tap_action
    ∷ PickupPage.Event.door_settled (ok order)
    ∷ []

abbrev pickup_guard : Guard
pickup_guard = record { acknowledged = true; hint = none }

pickup_run-opened_example : PickupPage.Safety.Confirmed (PickupPage.start order_id) pickup
unfolding PickupPage.run PickupPage.step PickupPage.start reload initial_hook settle_reload
    handle_action toggle fresh_guard shown text text_eq trim
pickup_run-opened_example = pickup_run-opened order_id pickup refl

pickup_run-OneRequest_example :
    PickupPage.Safety.OneRequest (PickupPage.run (PickupPage.start order_id) pickup)
pickup_run-OneRequest_example = pickup_run-OneRequest order_id pickup

pickup_step-requests_example :
    ((PickupPage.step pickup_shown PickupPage.Event.tap_action).requests ≡ pickup_shown.requests)
    ⊎ ((PickupPage.Event.tap_action ≡ PickupPage.Event.tap_action)
        × PickupPage.Code.IsAcknowledged pickup_shown.guard
        × (shows_safety pickup_shown.phase ≡ true)
        × (PickupPage.code_matches pickup_shown ≡ true)
        × ((PickupPage.step pickup_shown PickupPage.Event.tap_action).requests
            ≡ pickup_shown.requests + 1)
        × ((PickupPage.step pickup_shown PickupPage.Event.tap_action).phase ≡ opening))
pickup_step-requests_example = pickup_step-requests pickup_shown PickupPage.Event.tap_action

pickup_sends_once : (PickupPage.run (PickupPage.start order_id) pickup).requests ≡ 1
unfolding PickupPage.run PickupPage.step PickupPage.start reload initial_hook settle_reload
    handle_action toggle fresh_guard shown text text_eq trim
pickup_sends_once = refl

-- A scan was begun.
abbrev pickup_scanning : PickupPage.PickupPage
pickup_scanning = PickupPage.step pickup_shown PickupPage.Event.tap_scan
