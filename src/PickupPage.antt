-- ===== src/PickupPage.antt =====
-- frontend/apps/miniapp/src/pages/pickup/index.tsx: the page that opens the door for the pick-up,
-- once the number of the cell is entered or scanned. As in `StorePage`, a handler is split at its
-- `await`, and `step` runs a part of it only where the screen offers it.
pub mod Safety
pub mod Code
pub mod Entry
pub mod Screen
use smart_parcel_locker.Prelude.{
  ℕ, ◌-◌, ◌+◌, Text, text, text_eq, truthy, trim, Bool, true, false, not, ◌&&◌, Option, none, some,
  ◌or◌, List, [], ◌∷◌, Result, ok, err, if◌then◌else◌, ltb, is_some, ◌or_else◌,
}
use smart_parcel_locker.OrderClient.{OrderDto}
use smart_parcel_locker.OrderHook.{
  OrderHook, initial_hook, reload, settle_reload, Shown, skeleton, failure, content, shown,
}
use smart_parcel_locker.Door.{
  DoorPhase, idle, opening, opened, failed, is_opening, Guard, fresh_guard, shows_safety, toggle,
  handle_action,
}
use smart_parcel_locker.ScanCode.{ScanOutcome, scan_code}

pub record PickupPage : Type 0 where
  pub order_id : Text
  pub hook : OrderHook
  pub phase : DoorPhase
  pub pickup_code : Text
  pub code_error : Bool
  pub guard : Option Guard
  -- the order that `applyCode` closed over when the open scan began
  pub scanning : Option OrderDto
  -- requests of `openPickupDoor` that have not settled, and all that were sent
  pub in_flight : ℕ
  pub requests : ℕ

pub data Event : Type 0 where
  reload_settled : Result OrderDto → Event
  tap_retry : Event
  -- `detail.value` and `target.value` of the input event
  input_code : Option Text → Option Text → Event
  blur_code : Event
  tap_scan : Event
  scan_settled : ScanOutcome → Event
  tap_acknowledge : Event
  tap_action : Event
  door_settled : Result OrderDto → Event

-- `codeMatches`
unfoldable pub matches : Option OrderDto → Text → Bool
matches none code = false
matches (some order) code = text_eq (trim code) order.cell_no

abbrev pub code_matches : PickupPage → Bool
code_matches s = matches s.hook.order s.pickup_code

differs : Option OrderDto → Text → Bool
differs none value = false
differs (some order) value = not (text_eq value order.cell_no)

-- `applyCode`, with the order that it closed over
unfoldable pub apply_code : Option OrderDto → Text → PickupPage → PickupPage
unfolding differs
apply_code order raw s =
    let value = trim raw in
    record s {
      pickup_code = value;
      code_error = if truthy value then differs order value else false;
    }

-- `verifyCode`
unfoldable pub verify_code : Option OrderDto → PickupPage → PickupPage
verify_code none s = s
verify_code (some order) s = record s {
  code_error = not (text_eq (trim s.pickup_code) order.cell_no);
}

-- `open` up to its `await`
unfoldable pub open_door : PickupPage → PickupPage
open_door s =
    if is_opening s.phase
    then s
    else if code_matches s
    then record s { phase = opening; in_flight = s.in_flight + 1; requests = s.requests + 1 }
    else record s { code_error = true }

-- `open` from its `await` on
unfoldable pub settle_door : Result OrderDto → PickupPage → PickupPage
settle_door (ok order) s = record s {
  phase = opened;
  in_flight = s.in_flight - 1;
  hook = reload s.order_id s.hook;
}
settle_door (err f) s = record s { phase = failed; in_flight = s.in_flight - 1 }

-- The code section is on the screen beside the order until the door is open.
abbrev shows_code : Shown → DoorPhase → Bool
shows_code (content order) opened = false
shows_code (content order) _ = true
shows_code _ _ = false

abbrev pub code_shown : PickupPage → Bool
code_shown s = shows_code (shown s.hook) s.phase

abbrev mounted : Bool → Option Guard → Option Guard
mounted false g = none
mounted true g = some (g or fresh_guard)

-- The guard is mounted in the code section while the code matches.
render : PickupPage → PickupPage
unfolding shown fresh_guard matches
render s = record s { guard = mounted (code_shown s && code_matches s) s.guard }

is_failure : Shown → Bool
is_failure failure = true
is_failure _ = false

acknowledge : Option Guard → PickupPage → PickupPage
acknowledge none s = s
acknowledge (some g) s = if shows_safety s.phase then record s { guard = some (toggle g) } else s

act : Option Guard → PickupPage → PickupPage
unfolding open_door
act none s = s
act (some g) s =
    let (g', called) = handle_action g in
    let s' = record s { guard = some g' } in
    if shows_safety s.phase then (if called then open_door s' else s') else s

-- `onScan` up to its `await`; the platform shows one scan at a time
begin_scan : Option OrderDto → Option OrderDto → PickupPage → PickupPage
begin_scan none scanning s = s
begin_scan (some order) none s = record s { scanning = some order }
begin_scan (some order) (some other) s = s

-- `onScan` from its `await` on
end_scan : Option OrderDto → ScanOutcome → PickupPage → PickupPage
unfolding scan_code apply_code
end_scan none outcome s = s
end_scan (some order) outcome s =
    let result = scan_code outcome in
    let s' = record s { scanning = none } in
    if result.is_ok then apply_code (some order) result.value s' else s'

-- One handler, where it can run.
handle : Event → PickupPage → PickupPage
unfolding act acknowledge settle_door is_failure shown verify_code begin_scan end_scan
handle (reload_settled r) s =
    if ltb 0 s.hook.pending then record s { hook = settle_reload r s.hook } else s
handle tap_retry s =
    if is_failure (shown s.hook) then record s { hook = reload s.order_id s.hook } else s
handle (input_code detail target) s =
    if code_shown s then apply_code s.hook.order (detail or_else target or []) s else s
handle blur_code s = if code_shown s then verify_code s.hook.order s else s
handle tap_scan s = if code_shown s then begin_scan s.hook.order s.scanning s else s
handle (scan_settled outcome) s = end_scan s.scanning outcome s
handle tap_acknowledge s = acknowledge s.guard s
handle tap_action s = act s.guard s
handle (door_settled r) s = if ltb 0 s.in_flight then settle_door r s else s

unfoldable pub step : PickupPage → Event → PickupPage
unfolding handle render
step s e = render (handle e s)

-- The page when it is opened.
unfoldable pub start : Text → PickupPage
unfolding render
start order_id = render (record {
  order_id = order_id;
  hook = reload order_id initial_hook;
  phase = idle;
  pickup_code = [];
  code_error = false;
  guard = none;
  scanning = none;
  in_flight = 0;
  requests = 0;
})

unfoldable pub run : PickupPage → List Event → PickupPage
run s [] = s
run s (e ∷ es) = run (step s e) es
