-- ===== src/ConfirmPage.antt =====
-- frontend/apps/miniapp/src/pages/order-confirm/index.tsx: the page that creates an order.
pub mod Laws
use smart_parcel_locker.Prelude.{
  ℕ, ◌-◌, ◌+◌, ◌%◌, ◌/◌, Text, text, text_eq, truthy, Bool, true, false, Option, none, some, ◌or◌,
  List, [], ◌∷◌, ◌++◌, Result, ok, err, ◌>>=◌, if◌then◌else◌, ltb, ◌==◌,
}
use smart_parcel_locker.Prelude.Int.{ℤ, pos, negsuc, abs, is_negative, neg}
use smart_parcel_locker.Prelude.Number.{Number, int, other, parse_int}
use smart_parcel_locker.Prelude.Decimal.{print_int}
use smart_parcel_locker.OrderClient.{OrderDto, CreateOrderInput}
use smart_parcel_locker.OrderHook.{
  LoadState, loading, success, error, Shown, skeleton, failure, content, shown_at,
}
use smart_parcel_locker.Stores.Storage.{Storage}
use smart_parcel_locker.Stores.ActiveOrder.{ActiveOrderStore, set_active_order, clear_active_order}
use smart_parcel_locker.Components.{StatePanel, state_panel, network, FeeRow, fee_summary}

-- `SIZE_LABELS[size] ?? size`; a size that is the name of an inherited property is left out.
unfoldable pub size_label : Text → Text
size_label size =
    if text_eq size (text "CELL_SIZE_SMALL")
    then text "小号"
    else if text_eq size (text "CELL_SIZE_MEDIUM")
    then text "中号"
    else if text_eq size (text "CELL_SIZE_LARGE")
    then text "大号"
    else size

-- z / 60 for a multiple of 60
hours : ℤ → ℤ
hours z = if is_negative z then neg (abs z / 60) else pos (abs z / 60)

-- `durationLabel`; the remainder of a number that is no integer is not 0
unfoldable pub duration_label : Number → Text
unfolding hours
duration_label (int z) =
    if abs z % 60 == 0 then print_int (hours z) ++ text "小时" else print_int z ++ text "分钟"
duration_label (other shown) = shown ++ text "分钟"

-- The input of `createOrder`, from the page's parameters.
unfoldable pub create_input : Option Text → Option Text → Option Text → CreateOrderInput
create_input site_id size duration = record {
  site_id = site_id or [];
  size = size or text "CELL_SIZE_SMALL";
  duration_minutes = parse_int (duration or text "60");
}

pub record ConfirmPage (S : Type 0) : Type 0 where
  pub order : Option OrderDto
  pub load_state : LoadState
  -- `creating.current`
  pub creating : Bool
  pub store : ActiveOrderStore S
  -- requests of `createOrder` that have not settled, and all that were sent
  pub in_flight : ℕ
  pub requests : ℕ

pub data Event : Type 0 where
  tap_retry : Event
  create_settled : Result OrderDto → Event
  -- the order was created, and `storage.setItem` throws
  created_unstored : OrderDto → Event
  -- another page sets or clears the active order
  active_changed : Option Text → Event

is_failure : Shown → Bool
is_failure failure = true
is_failure _ = false

abbrev pub page_shown : {S : Type 0} → ConfirmPage S → Shown
page_shown s = shown_at s.load_state s.order

module _ {S : Type 0} (storage : Storage S) where
  -- `createOrder` up to its `await`
  unfoldable pub create_order : ConfirmPage S → ConfirmPage S
  create_order s = if s.creating then s else record s {
    creating = true;
    load_state = loading;
    in_flight = s.in_flight + 1;
    requests = s.requests + 1;
  }

  -- `createOrder` from its `await` on, the `finally` block included
  unfoldable pub settle_create : Result OrderDto → ConfirmPage S → ConfirmPage S
  settle_create (ok created) s = record s {
    order = some created;
    store = set_active_order storage created.id s.store;
    load_state = success;
    creating = false;
    in_flight = s.in_flight - 1;
  }
  settle_create (err f) s = record s {
    load_state = error;
    creating = false;
    in_flight = s.in_flight - 1;
  }

  -- `createOrder` where `setActiveOrder` throws: the order is set, and the `catch` block runs.
  unfoldable pub settle_unstored : OrderDto → ConfirmPage S → ConfirmPage S
  settle_unstored created s = record s {
    order = some created;
    load_state = error;
    creating = false;
    in_flight = s.in_flight - 1;
  }

  -- What another page does to the shared store.
  unfoldable pub change_active : Option Text → ActiveOrderStore S → ActiveOrderStore S
  change_active (some order_id) store = set_active_order storage order_id store
  change_active none store = clear_active_order storage store

  -- One handler, where it can run.
  unfoldable pub step : ConfirmPage S → Event → ConfirmPage S
  unfolding create_order settle_create settle_unstored change_active is_failure
  step s tap_retry = if is_failure (page_shown s) then create_order s else s
  step s (create_settled r) = if ltb 0 s.in_flight then settle_create r s else s
  step s (created_unstored o) = if ltb 0 s.in_flight then settle_unstored o s else s
  step s (active_changed id) = record s { store = change_active id s.store }

  -- The page when it is opened: the order is created at once.
  unfoldable pub start : ActiveOrderStore S → ConfirmPage S
  unfolding create_order
  start store = create_order (record {
    order = none;
    load_state = loading;
    creating = false;
    store = store;
    in_flight = 0;
    requests = 0;
  })

  unfoldable pub run : ConfirmPage S → List Event → ConfirmPage S
  run s [] = s
  run s (e ∷ es) = run (step s e) es

pub record OrderScreen : Type 0 where
  pub title : Text
  pub order_no : Text
  pub cell : Text
  pub duration : Text
  pub fees : List FeeRow
  pub button : Text

pub data Screen : Type 0 where
  waiting : Screen
  network_panel : StatePanel → Screen
  order_screen : OrderScreen → Screen

unfoldable pub screen_of : Shown → Result Screen
unfolding size_label duration_label
screen_of skeleton = ok waiting
screen_of failure = ok (network_panel (state_panel network none))
screen_of (content order) = do
  fees ← fee_summary (record {
    rent_fee_fen = order.fee_snapshot.rent_fee_fen;
    deposit_fen = order.fee_snapshot.deposit_fen;
    discount_fen = order.fee_snapshot.discount_fen;
    total_fen = order.fee_snapshot.total_fen;
    overdue_fee_fen = none;
  })
  ok (
      order_screen (record {
        title = order.site_name;
        order_no = text "订单号 " ++ order.order_no;
        cell = text "柜格 " ++ (order.cell_no ++ (text "（" ++ (size_label order.size ++ text "）")));
        duration = text "寄存时长 " ++ duration_label order.duration_minutes;
        fees = fees;
        button = text "去支付";
      }))
