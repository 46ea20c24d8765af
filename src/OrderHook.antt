-- ===== src/OrderHook.antt =====
-- frontend/apps/miniapp/src/features/orders/use-order.ts: the order of a page, loaded from the
-- server; the routes of the actions.
pub mod Routes
use smart_parcel_locker.Prelude.{
  ℕ, suc, ◌-◌, ◌+◌, Text, text, text_eq, truthy, Bool, true, false, Option, none, some, List, [],
  ◌∷◌, ◌++◌, Result, ok, err, ◌>>=◌, Failure, app_error, AppError, AppErrorCode, unknown,
  if◌then◌else◌, ltb,
}
use smart_parcel_locker.Prelude.Uri.{encode_uri_component}
use smart_parcel_locker.Order.{
  OrderAction, pay, cancel, open_deposit_door, open_pickup_door, settle_overdue, contact_support,
}
use smart_parcel_locker.OrderClient.{OrderDto}

-- `devPaymentSimulatorEnabled`, of the constant of the build, `undefined` as `none`.
unfoldable pub dev_payment_simulator_enabled : Option Text → Bool
dev_payment_simulator_enabled none = false
dev_payment_simulator_enabled (some value) = text_eq value (text "true")

pub data LoadState : Type 0 where
  loading success error : LoadState

-- `useOrder`'s state, with how many requests of `getOrder` have not settled.
pub record OrderHook : Type 0 where
  pub order : Option OrderDto
  pub load_state : LoadState
  pub code : Option AppErrorCode
  pub trace_id : Option Text
  pub pending : ℕ

unfoldable pub initial_hook : OrderHook
initial_hook = record {
  order = none;
  load_state = loading;
  code = none;
  trace_id = none;
  pending = 0;
}

-- `error instanceof AppError ? error : new AppError("UNKNOWN", …)`
unfoldable pub to_app_error : Failure → AppError
to_app_error (app_error e) = e
to_app_error _ = record { code = unknown; message = text "请求失败"; trace_id = none }

-- `reload` up to its `await`.
unfoldable pub reload : Text → OrderHook → OrderHook
reload order_id h =
    if truthy order_id then record h { load_state = loading; pending = h.pending + 1 } else h

-- `reload` from its `await` on, when the promise of `getOrder` settles.
unfoldable pub settle_reload : Result OrderDto → OrderHook → OrderHook
unfolding to_app_error
settle_reload (ok order) h = record h {
  order = some order;
  load_state = success;
  pending = h.pending - 1;
}
settle_reload (err f) h =
    let e = to_app_error f in
    record h {
      code = some e.code;
      trace_id = e.trace_id;
      load_state = error;
      pending = h.pending - 1;
    }

-- What a page shows of the hook: a skeleton, the error panel, or the order.
pub data Shown : Type 0 where
  skeleton failure : Shown
  content : OrderDto → Shown

abbrev pub order_or_failure : Option OrderDto → Shown
order_or_failure none = failure
order_or_failure (some order) = content order

abbrev pub shown_at : LoadState → Option OrderDto → Shown
shown_at loading order = skeleton
shown_at error order = failure
shown_at success order = order_or_failure order

unfoldable pub shown : OrderHook → Shown
shown h = shown_at h.load_state h.order

-- `orderActionRoute`: `null` is `none`; the id is encoded first.
unfoldable pub order_action_route : OrderAction → Text → Result (Option Text)
order_action_route action order_id = do
  id ← encode_uri_component order_id
  ok (elim action [
    | pay ↦ some (text "/pages/payment/index?orderId=" ++ id)
    | open_deposit_door ↦ some (text "/pages/store/index?orderId=" ++ id)
    | open_pickup_door ↦ some (text "/pages/pickup/index?orderId=" ++ id)
    | settle_overdue ↦ some (text "/pages/overdue/index?orderId=" ++ id)
    | cancel ↦ none
    | contact_support ↦ none
  ])
