-- ===== src/DetailPage.antt =====
-- frontend/apps/miniapp/src/pages/order-detail/index.tsx: an order, refreshed every five seconds
-- until it has ended, and its actions.
pub mod Laws
pub mod Polling
use smart_parcel_locker.Prelude.{
  ℕ, ◌-◌, ◌+◌, Text, text, truthy, Bool, true, false, not, ◌&&◌, Option, none, some, List, [], ◌∷◌,
  ◌++◌, map, any, Result, ok, err, ◌>>=◌, if◌then◌else◌, ltb,
}
use smart_parcel_locker.Order.{
  OrderStatus, completed, cancelled, OrderAction, pay, cancel, open_deposit_door, open_pickup_door,
  settle_overdue, contact_support, available_order_actions, order_action_label,
}
use smart_parcel_locker.Order.Timeline.{Step, status_timeline}
use smart_parcel_locker.OrderClient.{OrderDto}
use smart_parcel_locker.OrderHook.{
  OrderHook, initial_hook, reload, settle_reload, Shown, skeleton, failure, content, shown,
  order_action_route,
}
use smart_parcel_locker.Components.{
  StatePanel, state_panel, network, StatusPill, status_pill, FeeRow, fee_summary, PrimaryButton,
  primary_button, when_truthy,
}

-- Where the handler of `cancel` waits: for `cancelOrder`, or for the `reload` behind it.
pub data Waiting : Type 0 where
  nothing cancellation own_reload : Waiting

pub record DetailPage : Type 0 where
  pub order_id : Text
  pub hook : OrderHook
  pub contact_open : Bool
  pub cancelling : Bool
  pub waiting : Waiting
  -- all requests of `cancelOrder` that were sent, and the pages that were navigated to
  pub cancellations : ℕ
  pub visited : List Text

pub data Event : Type 0 where
  reload_settled : Result OrderDto → Event
  own_reload_settled : Result OrderDto → Event
  tap_retry : Event
  tick : Event
  tap : OrderAction → Event
  cancel_settled : Result OrderDto → Event

-- `isTerminal`
abbrev pub is_terminal : OrderStatus → Bool
is_terminal completed = true
is_terminal cancelled = true
is_terminal _ = false

-- The interval is set while there is an order that has not ended.
abbrev pub polls : Option OrderDto → Bool
polls none = false
polls (some order) = not (is_terminal order.status)

abbrev pub is_cancel : OrderAction → Bool
is_cancel cancel = true
is_cancel _ = false

same_action : OrderAction → OrderAction → Bool
same_action pay pay = true
same_action cancel cancel = true
same_action open_deposit_door open_deposit_door = true
same_action open_pickup_door open_pickup_door = true
same_action settle_overdue settle_overdue = true
same_action contact_support contact_support = true
same_action _ _ = false

lists : Result (List OrderAction) → OrderAction → Bool
unfolding same_action
lists (ok actions) a = any (same_action a) actions
lists (err e) a = false

-- The button of the action is on the screen, and enabled.
can_tap : Shown → Bool → OrderAction → Bool
unfolding lists
can_tap (content order) cancelling a =
    lists (available_order_actions order.status) a && not (is_cancel a && cancelling)
can_tap _ cancelling a = false

visit : Result (Option Text) → DetailPage → DetailPage
visit (ok (some route)) s = record s { visited = s.visited ++ route ∷ [] }
visit _ s = s

-- `onAction` up to its first `await`
unfoldable pub on_action : OrderAction → DetailPage → DetailPage
unfolding visit
on_action contact_support s = record s { contact_open = true }
on_action cancel s = record s {
  cancelling = true;
  waiting = cancellation;
  cancellations = s.cancellations + 1;
}
on_action action s = visit (order_action_route action s.order_id) s

-- The rest of `cancel`: `await reload()`, and the `finally` block; a failed request is not caught.
unfoldable pub settle_cancel : Result OrderDto → DetailPage → DetailPage
settle_cancel (ok order) s =
    if truthy s.order_id
    then record s { hook = reload s.order_id s.hook; waiting = own_reload }
    else record s { cancelling = false; waiting = nothing }
settle_cancel (err f) s = record s { cancelling = false; waiting = nothing }

is_failure : Shown → Bool
is_failure failure = true
is_failure _ = false

abbrev awaits_cancellation : Waiting → Bool
awaits_cancellation cancellation = true
awaits_cancellation _ = false

abbrev awaits_own_reload : Waiting → Bool
awaits_own_reload own_reload = true
awaits_own_reload _ = false

-- The reloads that no handler waits for.
abbrev other_reloads : DetailPage → ℕ
other_reloads s = if awaits_own_reload s.waiting then s.hook.pending - 1 else s.hook.pending

-- One handler, where it can run.
unfoldable pub step : DetailPage → Event → DetailPage
unfolding can_tap on_action settle_cancel is_failure shown
step s (reload_settled r) =
    if ltb 0 (other_reloads s) then record s { hook = settle_reload r s.hook } else s
step s (own_reload_settled r) =
    if awaits_own_reload s.waiting
    then record s { hook = settle_reload r s.hook; cancelling = false; waiting = nothing }
    else s
step s tap_retry =
    if is_failure (shown s.hook) then record s { hook = reload s.order_id s.hook } else s
step s tick = if polls s.hook.order then record s { hook = reload s.order_id s.hook } else s
step s (tap action) = if can_tap (shown s.hook) s.cancelling action then on_action action s else s
step s (cancel_settled r) = if awaits_cancellation s.waiting then settle_cancel r s else s

unfoldable pub start : Text → DetailPage
start order_id = record {
  order_id = order_id;
  hook = reload order_id initial_hook;
  contact_open = false;
  cancelling = false;
  waiting = nothing;
  cancellations = 0;
  visited = [];
}

unfoldable pub run : DetailPage → List Event → DetailPage
run s [] = s
run s (e ∷ es) = run (step s e) es

pub record DetailScreen : Type 0 where
  pub title : Text
  pub pill : StatusPill
  pub site : Text
  pub meta : Text
  pub timeline : List Step
  pub fees : List FeeRow
  pub buttons : List PrimaryButton
  pub contact : Option (Text × Text)

pub data Screen : Type 0 where
  waiting_screen : Screen
  network_panel : StatePanel → Screen
  order_screen : DetailScreen → Screen

action_button : Bool → OrderAction → PrimaryButton
action_button cancelling a = primary_button (order_action_label a) (is_cancel a && cancelling)

contact_of : Bool → OrderDto → Option (Text × Text)
contact_of false order = none
contact_of true order = some (text "联系客服", text "如需帮助，请通过 App 内官方渠道联系客服，并提供订单号 " ++ order.order_no)

screen_of : DetailPage → Shown → Result Screen
unfolding action_button contact_of
screen_of s skeleton = ok waiting_screen
screen_of s failure = ok (network_panel (state_panel network (when_truthy s.hook.trace_id)))
screen_of s (content order) = do
  actions ← available_order_actions order.status
  fees ← fee_summary (record {
    rent_fee_fen = order.fee_snapshot.rent_fee_fen;
    deposit_fen = order.fee_snapshot.deposit_fen;
    discount_fen = order.fee_snapshot.discount_fen;
    total_fen = order.fee_snapshot.total_fen;
    overdue_fee_fen = some order.overdue_fee_fen;
  })
  ok (
      order_screen (record {
        title = text "订单详情";
        pill = status_pill order.status;
        site = order.site_name;
        meta = text "柜格 " ++ (order.cell_no ++ (text " · 订单号 " ++ order.order_no));
        timeline = status_timeline order.status;
        fees = fees;
        buttons = map (action_button s.cancelling) actions;
        contact = contact_of s.contact_open order;
      }))

-- The value that `OrderDetailPage` returns, or the error that it throws.
unfoldable pub detail_screen : DetailPage → Result Screen
unfolding screen_of
detail_screen s = screen_of s (shown s.hook)
