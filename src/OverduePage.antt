-- ===== src/OverduePage.antt =====
-- frontend/apps/miniapp/src/pages/overdue/index.tsx: the page that settles an overdue fee, in
-- development builds.
pub mod Laws
use smart_parcel_locker.Prelude.{
  ℕ, ◌-◌, ◌+◌, Text, text, truthy, Bool, true, false, Option, none, some, List, [], ◌∷◌, ◌++◌,
  Result, ok, err, ◌>>=◌, if◌then◌else◌, ltb,
}
use smart_parcel_locker.Order.{OrderStatus, overdue}
use smart_parcel_locker.OrderClient.{OrderDto}
use smart_parcel_locker.OrderHook.{
  OrderHook, initial_hook, reload, settle_reload, Shown, skeleton, failure, content, shown,
}
use smart_parcel_locker.Components.{
  StatePanel, state_panel, network, StatusPill, status_pill, FeeRow, fee_summary, PrimaryButton,
  primary_button, when_truthy,
}

-- Where the handler `settle` waits: for `settleOverdue`, or for the `reload` behind it.
pub data Waiting : Type 0 where
  nothing settlement own_reload : Waiting

pub record OverduePage : Type 0 where
  pub order_id : Text
  pub hook : OrderHook
  pub settling : Bool
  pub waiting : Waiting
  -- all requests of `settleOverdue` that were sent
  pub settlements : ℕ

pub data Event : Type 0 where
  reload_settled : Result OrderDto → Event
  own_reload_settled : Result OrderDto → Event
  tap_retry : Event
  tap_settle : Event
  settlement_settled : Result OrderDto → Event

abbrev pub is_overdue : OrderStatus → Bool
is_overdue overdue = true
is_overdue _ = false

-- What stands below the fees.
pub data SettleArea : Type 0 where
  settle_button : PrimaryButton → SettleArea
  hint : Text → SettleArea

unfoldable pub settle_area : Bool → OrderDto → Bool → SettleArea
settle_area simulator order settling =
    if is_overdue order.status
    then (if simulator
        then settle_button (primary_button (text "补缴逾期费（开发环境）") settling)
        else hint (text "真实支付渠道尚未接入，暂无法补缴逾期费"))
    else hint (text "逾期费用已结清")

-- `settle` up to its first `await`
unfoldable pub settle : OverduePage → OverduePage
settle s =
    if s.settling
    then s
    else record s { settling = true; waiting = settlement; settlements = s.settlements + 1 }

-- `settle` behind its first `await`: `await reload()` returns at once where no order is named; in
-- the `catch` block the reload is not waited for.
unfoldable pub settle_settlement : Result OrderDto → OverduePage → OverduePage
settle_settlement (ok order) s =
    if truthy s.order_id
    then record s { hook = reload s.order_id s.hook; waiting = own_reload }
    else record s { settling = false; waiting = nothing }
settle_settlement (err f) s = record s {
  hook = reload s.order_id s.hook;
  settling = false;
  waiting = nothing;
}

settle_enabled : SettleArea → Bool
settle_enabled (settle_button b) = b.enabled
settle_enabled (hint t) = false

can_settle : Bool → Shown → Bool → Bool
unfolding settle_enabled settle_area
can_settle simulator (content order) settling =
    settle_enabled (settle_area simulator order settling)
can_settle simulator _ settling = false

is_failure : Shown → Bool
is_failure failure = true
is_failure _ = false

abbrev awaits_settlement : Waiting → Bool
awaits_settlement settlement = true
awaits_settlement _ = false

abbrev awaits_own_reload : Waiting → Bool
awaits_own_reload own_reload = true
awaits_own_reload _ = false

-- The reloads that no handler waits for.
abbrev other_reloads : OverduePage → ℕ
other_reloads s = if awaits_own_reload s.waiting then s.hook.pending - 1 else s.hook.pending

-- One handler, where it can run.
unfoldable pub step : Bool → OverduePage → Event → OverduePage
unfolding settle settle_settlement can_settle is_failure primary_button shown
step simulator s (reload_settled r) =
    if ltb 0 (other_reloads s) then record s { hook = settle_reload r s.hook } else s
step simulator s (own_reload_settled r) =
    if awaits_own_reload s.waiting
    then record s { hook = settle_reload r s.hook; settling = false; waiting = nothing }
    else s
step simulator s tap_retry =
    if is_failure (shown s.hook) then record s { hook = reload s.order_id s.hook } else s
step simulator s tap_settle = if can_settle simulator (shown s.hook) s.settling then settle s else s
step simulator s (settlement_settled r) =
    if awaits_settlement s.waiting then settle_settlement r s else s

unfoldable pub start : Text → OverduePage
start order_id = record {
  order_id = order_id;
  hook = reload order_id initial_hook;
  settling = false;
  waiting = nothing;
  settlements = 0;
}

unfoldable pub run : Bool → OverduePage → List Event → OverduePage
run simulator s [] = s
run simulator s (e ∷ es) = run simulator (step simulator s e) es

pub record OverdueScreen : Type 0 where
  pub title : Text
  pub pill : StatusPill
  pub site : Text
  pub fees : List FeeRow
  pub area : SettleArea

pub data Screen : Type 0 where
  waiting_screen : Screen
  network_panel : StatePanel → Screen
  order_screen : OverdueScreen → Screen

screen_of : Bool → OverduePage → Shown → Result Screen
unfolding settle_area
screen_of simulator s skeleton = ok waiting_screen
screen_of simulator s failure =
    ok (network_panel (state_panel network (when_truthy s.hook.trace_id)))
screen_of simulator s (content order) = do
  fees ← fee_summary (record {
    rent_fee_fen = order.fee_snapshot.rent_fee_fen;
    deposit_fen = order.fee_snapshot.deposit_fen;
    discount_fen = order.fee_snapshot.discount_fen;
    total_fen = order.fee_snapshot.total_fen;
    overdue_fee_fen = some order.overdue_fee_fen;
  })
  ok (
      order_screen (record {
        title = text "逾期补缴";
        pill = status_pill order.status;
        site = order.site_name ++ (text " · 柜格 " ++ order.cell_no);
        fees = fees;
        area = settle_area simulator order s.settling;
      }))

-- The value that `OverduePage` returns.
unfoldable pub overdue_screen : Bool → OverduePage → Result Screen
unfolding screen_of
overdue_screen simulator s = screen_of simulator s (shown s.hook)
