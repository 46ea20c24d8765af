-- ===== src/Components.antt =====
-- frontend/apps/miniapp/src/components: what the shared components show. A component's value is
-- what stands on the screen; class names and layout are left out.
use smart_parcel_locker.Prelude.{
  Text, text, truthy, Bool, true, false, Option, none, some, List, [], ◌∷◌, ◌++◌, Result, ok, ◌>>=◌,
  if◌then◌else◌, ltb, ◌or◌,
}
use smart_parcel_locker.Prelude.Int.{ℤ, pos, pos_part}
use smart_parcel_locker.Prelude.Number.{int}
use smart_parcel_locker.Order.{
  OrderStatus, StatusTone, success, warning, danger, info, muted, to_order_status_view,
}
use smart_parcel_locker.Money.{format_fen}

-- `Row`
pub record FeeRow : Type 0 where
  pub label : Text
  pub value : Text
  pub emphasized : Bool

pub record FeeSummaryProps : Type 0 where
  pub rent_fee_fen : ℤ
  pub deposit_fen : ℤ
  pub discount_fen : ℤ
  pub total_fen : ℤ
  pub overdue_fee_fen : Option ℤ

-- `z > 0`
abbrev pub is_positive : ℤ → Bool
is_positive z = ltb 0 (pos_part z)

row_of : Text → ℤ → Bool → Result FeeRow
row_of label z emphasized = do
  value ← format_fen (int z)
  ok (record { label = label; value = value; emphasized = emphasized })

-- A row that is shown only for a positive amount.
optional_row : Bool → Result FeeRow → Result (List FeeRow)
optional_row false row = ok []
optional_row true row = do r ← row; ok (r ∷ [])

minus : Result FeeRow → Result FeeRow
minus row = do r ← row; ok (record r { value = b'-' ∷ r.value })

-- `FeeSummary`
unfoldable pub fee_summary : FeeSummaryProps → Result (List FeeRow)
unfolding row_of optional_row minus
fee_summary props = do
  let overdue_fee = props.overdue_fee_fen or pos 0
  rent ← row_of (text "寄存费") props.rent_fee_fen false
  deposit ← row_of (text "押金") props.deposit_fen false
  discount ←
      optional_row (is_positive props.discount_fen)
        (minus (row_of (text "优惠") props.discount_fen false))
  overdue ← optional_row (is_positive overdue_fee) (row_of (text "逾期费") overdue_fee false)
  total ← row_of (text "合计") props.total_fen true
  ok (rent ∷ deposit ∷ (discount ++ (overdue ++ total ∷ [])))

pub data PanelKind : Type 0 where
  empty network offline location : PanelKind

-- `StatePanel`; the button calls `onRetry`
pub record StatePanel : Type 0 where
  pub title : Text
  pub impact : Text
  pub trace : Option Text
  pub action : Text

-- `x && …` on an optional string: the empty string shows nothing.
abbrev pub when_truthy : Option Text → Option Text
when_truthy none = none
when_truthy (some t) = if truthy t then some t else none

-- `参考编号：{props.traceId}`
trace_line : Option Text → Option Text
trace_line none = none
trace_line (some t) = if truthy t then some (text "参考编号：" ++ t) else none

unfoldable pub state_panel : PanelKind → Option Text → StatePanel
unfolding trace_line
state_panel empty trace = record {
  title = text "暂无可用网点";
  impact = text "当前筛选条件下无法开始寄存";
  trace = trace_line trace;
  action = text "调整筛选";
}
state_panel network trace = record {
  title = text "网络连接失败";
  impact = text "尚未更改当前订单或柜格";
  trace = trace_line trace;
  action = text "重试";
}
state_panel offline trace = record {
  title = text "设备已离线";
  impact = text "当前站点暂时无法开门";
  trace = trace_line trace;
  action = text "查看附近网点";
}
state_panel location trace = record {
  title = text "需要位置权限";
  impact = text "授权定位后才能查找附近寄存点";
  trace = trace_line trace;
  action = text "重新定位";
}

-- `PrimaryButton`: its label, and whether it is enabled.
pub record PrimaryButton : Type 0 where
  pub label : Text
  pub enabled : Bool

unfoldable pub primary_button : Text → Bool → PrimaryButton
primary_button label loading =
    if loading
    then record { label = text "处理中…"; enabled = false }
    else record { label = label; enabled = true }

-- The tones of `StatusPill`: `success`, `warning`, `danger` and `neutral` are shown in these colours.
pub data PillTone : Type 0 where
  green amber red neutral : PillTone

abbrev pill_of : Option StatusTone → PillTone
pill_of none = neutral
pill_of (some success) = green
pill_of (some warning) = amber
pill_of (some danger) = red
pill_of (some info) = neutral
pill_of (some muted) = neutral

-- `statusPillTone` of features/orders/use-order.ts
unfoldable pub status_pill_tone : OrderStatus → PillTone
status_pill_tone status = pill_of (to_order_status_view status).tone

-- `StatusPill`
pub record StatusPill : Type 0 where
  pub label : Option Text
  pub tone : PillTone

unfoldable pub status_pill : OrderStatus → StatusPill
unfolding status_pill_tone
status_pill status = record {
  label = (to_order_status_view status).label;
  tone = status_pill_tone status;
}
