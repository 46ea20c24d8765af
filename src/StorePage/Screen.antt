-- ===== src/StorePage/Screen.antt =====
-- What the page for a deposit shows.
use smart_parcel_locker.Prelude.{
  Text, text, ◌++◌, Option, none, some, List, Result, ok, ◌>>=◌, false,
}
use smart_parcel_locker.OrderHook.{Shown, skeleton, failure, content, shown}
use smart_parcel_locker.Components.{
  StatePanel, state_panel, network, StatusPill, status_pill, FeeRow, fee_summary, PrimaryButton,
  primary_button, when_truthy,
}
use smart_parcel_locker.Door.{DoorPhase, opened, Guard, fresh_guard, GuardView, door_safety_guard}
use smart_parcel_locker.StorePage.{StorePage}

pub data DoorArea : Type 0 where
  done : Text → PrimaryButton → DoorArea
  guarded : GuardView → DoorArea

pub record OrderScreen : Type 0 where
  pub title : Text
  pub pill : StatusPill
  pub site : Text
  pub cell : Text
  pub fees : List FeeRow
  pub door : DoorArea

pub data StoreScreen : Type 0 where
  waiting : StoreScreen
  network_panel : StatePanel → StoreScreen
  order_screen : OrderScreen → StoreScreen

abbrev guard_or_fresh : Option Guard → Guard
guard_or_fresh none = fresh_guard
guard_or_fresh (some g) = g

door_area : DoorPhase → Text → Option Guard → DoorArea
door_area opened cell_no g = done (text "柜门已打开，请放入物品并关闭柜门") (primary_button (text "查看订单") false)
door_area phase cell_no g =
    guarded (door_safety_guard phase (text "开门存入") (some cell_no) none (guard_or_fresh g))

screen_of : StorePage → Shown → Result StoreScreen
unfolding door_area
screen_of s skeleton = ok waiting
screen_of s failure = ok (network_panel (state_panel network (when_truthy s.hook.trace_id)))
screen_of s (content order) = do
  fees ← fee_summary (record {
    rent_fee_fen = order.fee_snapshot.rent_fee_fen;
    deposit_fen = order.fee_snapshot.deposit_fen;
    discount_fen = order.fee_snapshot.discount_fen;
    total_fen = order.fee_snapshot.total_fen;
    overdue_fee_fen = some order.overdue_fee_fen;
  })
  ok (
      order_screen (record {
        title = text "存入物品";
        pill = status_pill order.status;
        site = order.site_name;
        cell = text "柜格 " ++ order.cell_no;
        fees = fees;
        door = door_area s.phase order.cell_no s.guard;
      }))

-- The value that `StorePage` returns.
unfoldable pub store_screen : StorePage → Result StoreScreen
unfolding screen_of
store_screen s = screen_of s (shown s.hook)
