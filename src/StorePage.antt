-- ===== src/StorePage.antt =====
-- frontend/apps/miniapp/src/pages/store/index.tsx: the page that opens the door for a deposit.
-- A handler is split at its `await`; `step` runs one part of it, or nothing where the screen
-- does not offer the tap or no promise is open, and mounts or unmounts the safety guard.
pub mod Safety
pub mod Progress
pub mod Screen
use smart_parcel_locker.Prelude.{
  ℕ, suc, ◌-◌, ◌+◌, Text, text, Bool, true, false, not, ◌&&◌, Option, none, some, ◌or◌, List, [],
  ◌∷◌, Result, ok, err, if◌then◌else◌, ltb,
}
use smart_parcel_locker.OrderClient.{OrderDto}
use smart_parcel_locker.OrderHook.{
  OrderHook, initial_hook, reload, settle_reload, Shown, skeleton, failure, content, shown,
}
use smart_parcel_locker.Door.{
  DoorPhase, idle, opening, opened, failed, is_opening, Guard, fresh_guard, shows_safety, toggle,
  handle_action,
}

pub record StorePage : Type 0 where
  pub order_id : Text
  pub hook : OrderHook
  pub phase : DoorPhase
  pub guard : Option Guard
  -- requests of `openDepositDoor` that have not settled, and all that were sent
  pub in_flight : ℕ
  pub requests : ℕ

pub data Event : Type 0 where
  reload_settled : Result OrderDto → Event
  tap_retry : Event
  tap_acknowledge : Event
  tap_action : Event
  door_settled : Result OrderDto → Event

-- The guard stands on the screen beside the order until the door is open.
shows_guard : Shown → DoorPhase → Bool
shows_guard (content order) opened = false
shows_guard (content order) _ = true
shows_guard _ _ = false

abbrev mounted : Bool → Option Guard → Option Guard
mounted false g = none
mounted true g = some (g or fresh_guard)

-- React keeps a mounted guard's state, starts a new one afresh, and drops it when it goes.
render : StorePage → StorePage
unfolding shows_guard shown fresh_guard
render s = record s { guard = mounted (shows_guard (shown s.hook) s.phase) s.guard }

-- `open` up to its `await`
unfoldable pub open_door : StorePage → StorePage
open_door s =
    if is_opening s.phase
    then s
    else record s { phase = opening; in_flight = s.in_flight + 1; requests = s.requests + 1 }

-- `open` from its `await` on
unfoldable pub settle_door : Result OrderDto → StorePage → StorePage
settle_door (ok order) s = record s {
  phase = opened;
  in_flight = s.in_flight - 1;
  hook = reload s.order_id s.hook;
}
settle_door (err f) s = record s { phase = failed; in_flight = s.in_flight - 1 }

is_failure : Shown → Bool
is_failure failure = true
is_failure _ = false

acknowledge : Option Guard → StorePage → StorePage
acknowledge none s = s
acknowledge (some g) s = if shows_safety s.phase then record s { guard = some (toggle g) } else s

act : Option Guard → StorePage → StorePage
unfolding open_door
act none s = s
act (some g) s =
    let (g', called) = handle_action g in
    let s' = record s { guard = some g' } in
    if shows_safety s.phase then (if called then open_door s' else s') else s

-- One handler, where it can run.
handle : Event → StorePage → StorePage
unfolding act acknowledge settle_door is_failure shown
handle (reload_settled r) s =
    if ltb 0 s.hook.pending then record s { hook = settle_reload r s.hook } else s
handle tap_retry s =
    if is_failure (shown s.hook) then record s { hook = reload s.order_id s.hook } else s
handle tap_acknowledge s = acknowledge s.guard s
handle tap_action s = act s.guard s
handle (door_settled r) s = if ltb 0 s.in_flight then settle_door r s else s

unfoldable pub step : StorePage → Event → StorePage
unfolding handle render
step s e = render (handle e s)

-- The page when it is opened: the order is requested at once.
unfoldable pub start : Text → StorePage
unfolding render
start order_id = render (record {
  order_id = order_id;
  hook = reload order_id initial_hook;
  phase = idle;
  guard = none;
  in_flight = 0;
  requests = 0;
})

unfoldable pub run : StorePage → List Event → StorePage
run s [] = s
run s (e ∷ es) = run (step s e) es
