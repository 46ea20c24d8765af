-- ===== src/PickupPage/Screen.antt =====
-- What the page for the pick-up shows.
use smart_parcel_locker.Prelude.{
  Text, text, ◌++◌, false, Option, none, some, List, Result, ok, ◌>>=◌, if◌then◌else◌,
}
use smart_parcel_locker.OrderClient.{OrderDto}
use smart_parcel_locker.OrderHook.{Shown, skeleton, failure, content, shown}
use smart_parcel_locker.Components.{
  StatePanel, state_panel, network, StatusPill, status_pill, FeeRow, fee_summary, PrimaryButton,
  primary_button, when_truthy,
}
use smart_parcel_locker.Door.{DoorPhase, opened, Guard, fresh_guard, GuardView, door_safety_guard}
use smart_parcel_locker.PickupPage.{PickupPage, matches}

-- The section in which the number of the cell is entered.
pub record CodeSection : Type 0 where
  pub hint : Text
  pub scan_button : Text
  pub placeholder : Text
  pub value : Text
  pub error : Option Text
  pub guard : Option GuardView

pub data PickupArea : Type 0 where
  done : Text → PrimaryButton → PickupArea
  code_section : CodeSection → PickupArea

pub record OrderScreen : Type 0 where
  pub title : Text
  pub pill : StatusPill
  pub site : Text
  pub cell : Text
  pub fees : List FeeRow
  pub area : PickupArea

pub data PickupScreen : Type 0 where
  waiting : PickupScreen
  network_panel : StatePanel → PickupScreen
  order_screen : OrderScreen → PickupScreen

abbrev guard_or_fresh : Option Guard → Guard
guard_or_fresh none = fresh_guard
guard_or_fresh (some g) = g

section_of : PickupPage → OrderDto → CodeSection
section_of s order = record {
  hint = text "请输入柜格号 " ++ (order.cell_no ++ text " 确认取件");
  scan_button = text "扫码取件";
  placeholder = text "请输入柜格号";
  value = s.pickup_code;
  error = if s.code_error then some (text "柜格号不匹配") else none;
  guard =
      if matches (some order) s.pickup_code
      then some (
          door_safety_guard s.phase (text "开门取件") (some order.cell_no) none
            (guard_or_fresh s.guard))
      else none;
}

area_of : DoorPhase → PickupPage → OrderDto → PickupArea
unfolding section_of
area_of opened s order = done (text "柜门已打开，请取走物品并关闭柜门") (primary_button (text "查看订单") false)
area_of phase s order = code_section (section_of s order)

screen_of : PickupPage → Shown → Result PickupScreen
unfolding area_of
screen_of s skeleton = ok waiting
screen_of s failure = ok (network_panel (state_panel network (when_truthy s.hook.trace_id)))
screen_of s (content order) = do
  fees ← fee_summary (record {
    rent_fee_fen = order.fee_snapshot.rent_fee_fen;
    deposit_fen = order.fee_snapshot.deposit_fen;
    discount_fen = order.fee_snapshot.discount_fen;
    total_fen = order.fee_snapshot.total_fen;
    overdue_fee_fen = some order.overdue_fee_fen;
  })
  ok (
      order_screen (record {
        title = text "取出物品";
        pill = status_pill order.status;
        site = order.site_name;
        cell = text "柜格 " ++ order.cell_no;
        fees = fees;
        area = area_of s.phase s order;
      }))

-- The value that `PickupPage` returns.
unfoldable pub pickup_screen : PickupPage → Result PickupScreen
unfolding screen_of
pickup_screen s = screen_of s (shown s.hook)
