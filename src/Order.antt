-- ===== src/Order.antt =====
-- frontend/packages/domain-ui/src/order.ts: order statuses, their views, and the actions that the
-- UI offers. `OrderStatus` is also declared in frontend/packages/api-client/src/order-client.ts.
pub mod Cast
pub mod Actions
pub mod Timeline
use smart_parcel_locker.Prelude.{
  Text, text, Option, none, some, List, [], ◌∷◌, ◌++◌, Result, ok, err, type_error, ◌>>=◌,
}

-- The nine statuses of the type, and what a cast lets in: `inherited t` is the name of a property
-- that every object inherits from `Object.prototype`, `foreign t` any other string.
pub data OrderStatus : Type 0 where
  unspecified : OrderStatus
  pending_payment : OrderStatus
  paid : OrderStatus
  awaiting_deposit : OrderStatus
  in_storage : OrderStatus
  awaiting_pickup : OrderStatus
  overdue : OrderStatus
  completed : OrderStatus
  cancelled : OrderStatus
  inherited : Text → OrderStatus
  foreign : Text → OrderStatus

pub data StatusTone : Type 0 where
  success warning danger info muted : StatusTone

-- A label or a tone that is missing from the value that a lookup found is `undefined`.
pub record OrderStatusView : Type 0 where
  pub status : OrderStatus
  pub label : Option Text
  pub tone : Option StatusTone

-- `TABLE[key]` for a table that is an object literal: its own value, `undefined`, or what the
-- object inherits, which has none of the fields of a row and cannot be spread.
pub data Property {ℓ} (A : Type ℓ) : Type ℓ where
  own : A → Property A
  undefined from_prototype : Property A

-- `STATUS_VIEWS`
abbrev pub status_views : OrderStatus → Property (Text × StatusTone)
status_views unspecified = own (text "未知状态", muted)
status_views pending_payment = own (text "待支付", warning)
status_views paid = own (text "已支付", success)
status_views awaiting_deposit = own (text "待存入", info)
status_views in_storage = own (text "寄存中", info)
status_views awaiting_pickup = own (text "待取件", info)
status_views overdue = own (text "已逾期", danger)
status_views completed = own (text "已完成", success)
status_views cancelled = own (text "已取消", muted)
status_views (inherited t) = from_prototype
status_views (foreign t) = undefined

view_of : OrderStatus → Property (Text × StatusTone) → OrderStatusView
view_of s (own (label, tone)) = record { status = s; label = some label; tone = some tone }
view_of s undefined = record { status = s; label = some (text "未知状态"); tone = some muted }
view_of s from_prototype = record { status = s; label = none; tone = none }

-- `toOrderStatusView`; the row of `ORDER_STATUS_UNSPECIFIED` stands in for `undefined`.
unfoldable pub to_order_status_view : OrderStatus → OrderStatusView
unfolding view_of
to_order_status_view status = view_of status (status_views status)

pub data OrderAction : Type 0 where
  pay cancel open_deposit_door open_pickup_door settle_overdue contact_support : OrderAction

-- `STATUS_ACTIONS`
abbrev pub status_actions : OrderStatus → Property (List OrderAction)
status_actions unspecified = own []
status_actions pending_payment = own (pay ∷ cancel ∷ [])
status_actions paid = own []
status_actions awaiting_deposit = own (open_deposit_door ∷ [])
status_actions in_storage = own (open_pickup_door ∷ [])
status_actions awaiting_pickup = own (open_pickup_door ∷ [])
status_actions overdue = own (settle_overdue ∷ [])
status_actions completed = own []
status_actions cancelled = own []
status_actions (inherited t) = from_prototype
status_actions (foreign t) = undefined

-- `[...(row ?? [])]`
spread : Property (List OrderAction) → Result (List OrderAction)
spread (own actions) = ok actions
spread undefined = ok []
spread from_prototype = err type_error

-- `availableOrderActions`
unfoldable pub available_order_actions : OrderStatus → Result (List OrderAction)
unfolding spread
available_order_actions status = do
  actions ← spread (status_actions status)
  ok (actions ++ contact_support ∷ [])

-- `orderActionLabel`, `ACTION_LABELS`
unfoldable pub order_action_label : OrderAction → Text
order_action_label pay = text "去支付"
order_action_label cancel = text "取消订单"
order_action_label open_deposit_door = text "开门存入"
order_action_label open_pickup_door = text "开门取件"
order_action_label settle_overdue = text "补缴逾期费"
order_action_label contact_support = text "联系客服"
