-- ===== src/OrdersPage.antt =====
-- frontend/apps/miniapp/src/pages/orders/index.tsx: the list of the user's orders, and
-- frontend/apps/miniapp/src/pages/me/index.tsx: the page of the user, which counts them.
pub mod Laws
use smart_parcel_locker.Prelude.{
  ℕ, ◌+◌, ◌-◌, ◌++◌, Text, text, truthy, Bool, true, false, Option, none, some, ◌or◌, List, [], ◌∷◌,
  map, length, Result, ok, err, ◌>>=◌, AppErrorCode, if◌then◌else◌, ltb,
}
use smart_parcel_locker.Prelude.Decimal.{print}
use smart_parcel_locker.Prelude.Uri.{encode_uri_component}
use smart_parcel_locker.OrderClient.{OrderDto}
use smart_parcel_locker.OrderHook.{to_app_error}
use smart_parcel_locker.Stores.Storage.{Storage}
use smart_parcel_locker.Stores.Session.{SessionStore, hydrate}
use smart_parcel_locker.Components.{
  StatePanel, state_panel, network, StatusPill, status_pill, when_truthy,
}

-- `OrdersState`
pub data OrdersState : Type 0 where
  loading success : List OrderDto → OrdersState
  error : List OrderDto → AppErrorCode → Option Text → OrdersState

pub record OrdersPage : Type 0 where
  pub state : OrdersState
  -- requests of `listOrders` that have not settled
  pub pending : ℕ

pub data Event : Type 0 where
  load_settled : Result (List OrderDto) → Event
  tap_retry : Event

-- `load` up to its `await`
unfoldable pub load : OrdersPage → OrdersPage
load s = record { state = loading []; pending = s.pending + 1 }

-- `load` from its `await` on
unfoldable pub settle_load : Result (List OrderDto) → OrdersPage → OrdersPage
settle_load (ok orders) s = record { state = success orders; pending = s.pending - 1 }
settle_load (err f) s = record {
  state = error [] (to_app_error f).code (when_truthy (to_app_error f).trace_id);
  pending = s.pending - 1;
}

-- The panel of an error has the button.
abbrev pub can_retry : OrdersState → Bool
can_retry (error orders code trace_id) = true
can_retry _ = false

unfoldable pub step : OrdersPage → Event → OrdersPage
unfolding load settle_load
step s (load_settled r) = if ltb 0 s.pending then settle_load r s else s
step s tap_retry = if can_retry s.state then load s else s

unfoldable pub start : OrdersPage
unfolding load
start = load (record { state = loading []; pending = 0 })

unfoldable pub run : OrdersPage → List Event → OrdersPage
run s [] = s
run s (e ∷ es) = run (step s e) es

-- The page that a tap on a row opens.
unfoldable pub order_route : Text → Result Text
order_route id = do
  encoded ← encode_uri_component id
  ok (text "/pages/order-detail/index?orderId=" ++ encoded)

pub record OrderRow : Type 0 where
  pub site : Text
  pub pill : StatusPill
  pub meta : Text
  -- the route of a tap
  pub opens : Result Text

unfoldable pub order_row : OrderDto → OrderRow
order_row order = record {
  site = order.site_name;
  pill = status_pill order.status;
  meta = text "柜格 " ++ (order.cell_no ++ (text " · 订单号 " ++ order.order_no));
  opens = order_route order.id;
}

pub data Screen : Type 0 where
  skeleton : Screen
  panel : StatePanel → Screen
  no_orders : Text → Text → Text → Screen
  orders_list : Text → List OrderRow → Screen

-- The value that `OrdersPage` returns.
unfoldable pub orders_screen : OrdersState → Screen
unfolding order_row
orders_screen (loading orders) = skeleton
orders_screen (error orders code trace_id) = panel (state_panel network trace_id)
orders_screen (success []) = no_orders (text "我的订单") (text "暂无订单") (text "前往附近网点开始寄存")
orders_screen (success (order ∷ rest)) = orders_list (text "我的订单") (map order_row (order ∷ rest))

pub record MePage (S : Type 0) : Type 0 where
  pub session : SessionStore S
  pub order_count : Option ℕ

-- `loadCount` from its `await` on
unfoldable pub settle_count : {S : Type 0} → Result (List OrderDto) → MePage S → MePage S
settle_count (ok orders) s = record s { order_count = some (length orders) }
settle_count (err failure) s = record s { order_count = some 0 }

-- The page when it is opened: the session is hydrated, and the orders are requested.
unfoldable pub open_me : {S : Type 0} → Storage S → SessionStore S → MePage S
open_me storage session = record { session = hydrate storage session; order_count = none }

-- `userId.charAt(0)`
abbrev pub first_char : Text → Text
first_char [] = []
first_char (c ∷ s) = c ∷ []

pub record MeScreen : Type 0 where
  pub avatar : Text
  pub user : Text
  pub app_name : Text
  pub banner : Option Text
  pub count : Text
  pub count_label : Text

abbrev pub count_text : Option ℕ → Text
count_text none = text "—"
count_text (some n) = print n

-- The part of what `MePage` returns that depends on its state; `to_upper` is `toUpperCase`.
unfoldable pub me_screen : {S : Type 0} → (Text → Text) → Bool → MePage S → MeScreen
me_screen to_upper simulator s = record {
  avatar =
      if truthy (s.session.user_id or [])
      then to_upper (first_char (s.session.user_id or []))
      else text "U";
  user = s.session.user_id or text "未登录";
  app_name = text "智能快递柜";
  banner = if simulator then some (text "开发模拟器已开启 — 支付与逾期操作为模拟行为") else none;
  count = count_text s.order_count;
  count_label = text "我的订单";
}
