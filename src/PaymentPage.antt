-- ===== src/PaymentPage.antt =====
-- frontend/apps/miniapp/src/pages/payment/index.tsx: the page that pays an order. The simulated
-- payment is there in development builds only.
pub mod Laws
use smart_parcel_locker.Prelude.{
  ℕ, ◌-◌, ◌+◌, Text, text, truthy, Bool, true, false, not, ◌&&◌, Option, none, some, List, [], ◌∷◌,
  ◌++◌, Result, ok, err, ◌>>=◌, if◌then◌else◌, ltb,
}
use smart_parcel_locker.Order.{OrderStatus, pending_payment}
use smart_parcel_locker.OrderClient.{OrderDto}
use smart_parcel_locker.OrderHook.{
  LoadState, loading, success, error, Shown, skeleton, failure, content, shown_at,
}
use smart_parcel_locker.Components.{
  StatePanel, state_panel, network, StatusPill, status_pill, FeeRow, fee_summary, PrimaryButton,
  primary_button,
}

pub record PaymentPage : Type 0 where
  pub order_id : Text
  pub order : Option OrderDto
  pub load_state : LoadState
  pub paying : Bool
  -- requests of `getOrder` and of `confirmDevelopmentPayment` that have not settled, and all
  -- payments that were sent
  pub loads : ℕ
  pub payments_open : ℕ
  pub payments : ℕ

pub data Event : Type 0 where
  load_settled : Result OrderDto → Event
  tap_retry : Event
  tap_pay : Event
  payment_settled : Result OrderDto → Event

-- `load` up to its `await`
unfoldable pub load : PaymentPage → PaymentPage
load s = if truthy s.order_id then record s { load_state = loading; loads = s.loads + 1 } else s

-- `load` from its `await` on
unfoldable pub settle_load : Result OrderDto → PaymentPage → PaymentPage
settle_load (ok order) s = record s {
  order = some order;
  load_state = success;
  loads = s.loads - 1;
}
settle_load (err f) s = record s { load_state = error; loads = s.loads - 1 }

-- `simulatePayment` up to its `await`
unfoldable pub simulate_payment : PaymentPage → PaymentPage
simulate_payment s =
    if s.paying
    then s
    else record s { paying = true; payments_open = s.payments_open + 1; payments = s.payments + 1 }

-- `simulatePayment` from its `await` on, the `finally` block included
unfoldable pub settle_payment : Result OrderDto → PaymentPage → PaymentPage
settle_payment (ok order) s = record s {
  order = some order;
  paying = false;
  payments_open = s.payments_open - 1;
}
settle_payment (err f) s = record s {
  load_state = error;
  paying = false;
  payments_open = s.payments_open - 1;
}

abbrev pub is_pending : OrderStatus → Bool
is_pending pending_payment = true
is_pending _ = false

-- What stands below the fees.
pub data PayArea : Type 0 where
  pay_button : PrimaryButton → PayArea
  hint : Text → PayArea

unfoldable pub pay_area : Bool → OrderDto → Bool → PayArea
pay_area simulator order paying =
    if is_pending order.status
    then (if simulator
        then pay_button (primary_button (text "模拟支付（开发环境）") paying)
        else hint (text "真实支付渠道尚未接入，暂无法完成支付"))
    else hint (text "支付成功，请前往柜机存入物品")

abbrev pub page_shown : PaymentPage → Shown
page_shown s = shown_at s.load_state s.order

-- The button can be tapped.
pay_enabled : PayArea → Bool
pay_enabled (pay_button b) = b.enabled
pay_enabled (hint t) = false

can_pay : Bool → Shown → Bool → Bool
unfolding pay_enabled pay_area
can_pay simulator (content order) paying = pay_enabled (pay_area simulator order paying)
can_pay simulator _ paying = false

is_failure : Shown → Bool
is_failure failure = true
is_failure _ = false

-- One handler, where it can run; `simulator` is `devPaymentSimulatorEnabled()`.
unfoldable pub step : Bool → PaymentPage → Event → PaymentPage
unfolding load settle_load simulate_payment settle_payment can_pay is_failure primary_button
step simulator s (load_settled r) = if ltb 0 s.loads then settle_load r s else s
step simulator s tap_retry = if is_failure (page_shown s) then load s else s
step simulator s tap_pay =
    if can_pay simulator (page_shown s) s.paying then simulate_payment s else s
step simulator s (payment_settled r) = if ltb 0 s.payments_open then settle_payment r s else s

unfoldable pub start : Text → PaymentPage
unfolding load
start order_id = load (record {
  order_id = order_id;
  order = none;
  load_state = loading;
  paying = false;
  loads = 0;
  payments_open = 0;
  payments = 0;
})

unfoldable pub run : Bool → PaymentPage → List Event → PaymentPage
run simulator s [] = s
run simulator s (e ∷ es) = run simulator (step simulator s e) es

pub record PaymentScreen : Type 0 where
  pub title : Text
  pub pill : StatusPill
  pub order_no : Text
  pub fees : List FeeRow
  pub pay : PayArea

pub data Screen : Type 0 where
  waiting : Screen
  network_panel : StatePanel → Screen
  order_screen : PaymentScreen → Screen

screen_of : Bool → PaymentPage → Shown → Result Screen
unfolding pay_area
screen_of simulator s skeleton = ok waiting
screen_of simulator s failure = ok (network_panel (state_panel network none))
screen_of simulator s (content order) = do
  fees ← fee_summary (record {
    rent_fee_fen = order.fee_snapshot.rent_fee_fen;
    deposit_fen = order.fee_snapshot.deposit_fen;
    discount_fen = order.fee_snapshot.discount_fen;
    total_fen = order.fee_snapshot.total_fen;
    overdue_fee_fen = some order.overdue_fee_fen;
  })
  ok (
      order_screen (record {
        title = text "订单支付";
        pill = status_pill order.status;
        order_no = text "订单号 " ++ order.order_no;
        fees = fees;
        pay = pay_area simulator order s.paying;
      }))

-- The value that `PaymentPage` returns.
unfoldable pub payment_screen : Bool → PaymentPage → Result Screen
unfolding screen_of
payment_screen simulator s = screen_of simulator s (page_shown s)
