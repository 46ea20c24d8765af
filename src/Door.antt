-- ===== src/Door.antt =====
-- frontend/apps/miniapp/src/components/door-status-panel.tsx and door-safety-guard.tsx.
use smart_parcel_locker.Prelude.{
  Text, text, truthy, Bool, true, false, not, Option, none, some, List, [], ◌∷◌, if◌then◌else◌,
  ◌++◌,
}
use smart_parcel_locker.Components.{PrimaryButton, primary_button, when_truthy}

pub data DoorPhase : Type 0 where
  idle opening opened failed : DoorPhase

abbrev pub is_opening : DoorPhase → Bool
is_opening opening = true
is_opening _ = false

-- `DoorStatusPanel`
pub record DoorStatusPanel : Type 0 where
  pub messages : List Text
  pub button : Option PrimaryButton

abbrev as_list : Option Text → List Text
as_list none = []
as_list (some t) = t ∷ []

unfoldable pub door_status_panel : DoorPhase → Text → Option Text → DoorStatusPanel
door_status_panel idle label message = record {
  messages = as_list (when_truthy message);
  button = some (primary_button label false);
}
door_status_panel opening label message = record { messages = text "正在开门…" ∷ []; button = none }
door_status_panel opened label message = record {
  messages = as_list (when_truthy message);
  button = none;
}
door_status_panel failed label message = record {
  messages = as_list (when_truthy message);
  button = some (primary_button (text "重试") false);
}

-- The state of a mounted `DoorSafetyGuard`.
pub record Guard : Type 0 where
  pub acknowledged : Bool
  pub hint : Option Text

unfoldable pub fresh_guard : Guard
fresh_guard = record { acknowledged = false; hint = none }

-- `phase === "idle" || phase === "failed"`: the safety list and the button are shown.
abbrev pub shows_safety : DoorPhase → Bool
shows_safety idle = true
shows_safety failed = true
shows_safety _ = false

-- The tap on the check box.
unfoldable pub toggle : Guard → Guard
toggle g = record g { acknowledged = not g.acknowledged }

-- `handleAction`: the guard, and whether `onAction` is called.
unfoldable pub handle_action : Guard → Guard × Bool
handle_action g =
    if g.acknowledged
    then (record g { hint = none }, true)
    else (record g { hint = some (text "请先勾选安全确认") }, false)

-- What stands on the screen of the safety list.
pub record SafetyView : Type 0 where
  pub title : Text
  pub items : List Text
  pub cell : Option Text
  pub checked : Bool
  pub label : Text

pub data Control : Type 0 where
  button : PrimaryButton → Control
  panel : DoorStatusPanel → Control

pub record GuardView : Type 0 where
  pub safety : Option SafetyView
  pub hint : Option Text
  pub control : Control

control_of : DoorPhase → Text → Option Text → Control
unfolding door_status_panel
control_of idle label message = button (primary_button label false)
control_of failed label message = button (primary_button (text "重试") false)
control_of opening label message = panel (door_status_panel opening label (when_truthy message))
control_of opened label message = panel (door_status_panel opened label (when_truthy message))

-- `目标柜格：{cellNo}`
target : Option Text → Option Text
target none = none
target (some cell_no) = if truthy cell_no then some (text "目标柜格：" ++ cell_no) else none

-- `DoorSafetyGuard`
unfoldable pub door_safety_guard : DoorPhase → Text → Option Text → Option Text → Guard → GuardView
unfolding control_of target
door_safety_guard phase action_label cell_no message g = record {
  safety =
      if shows_safety phase
      then some (record {
        title = text "开门前安全确认";
        items = text "· 柜门周边无人窥视" ∷ text "· 取物 / 存物通道畅通" ∷ text "· 已核对目标柜格号" ∷ [];
        cell = target cell_no;
        checked = g.acknowledged;
        label = text "我已知晓并确认安全";
      })
      else none;
  hint = if shows_safety phase then when_truthy g.hint else none;
  control = control_of phase action_label message;
}
