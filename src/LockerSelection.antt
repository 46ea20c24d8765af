-- ===== src/LockerSelection.antt =====
-- frontend/apps/miniapp/src/pages/locker-selection/index.tsx: the choice of a cell's size and of the
-- time. The parameters of the page are those that the router hands over.
pub mod Laws
use smart_parcel_locker.Prelude.{
  zero, suc, ℕ, ◌++◌, Text, text, text_eq, truthy, Bool, ◌==◌, Option, ◌or◌, List, [], ◌∷◌, map,
  Result, ok, ◌>>=◌, if◌then◌else◌,
}
use smart_parcel_locker.Prelude.Decimal.{print}
use smart_parcel_locker.Prelude.Uri.{encode_uri_component}
use smart_parcel_locker.Prelude.Uri.Decode.{decode_uri_component}

-- `SIZE_OPTIONS`: values and labels
unfoldable pub size_options : List (Text × Text)
size_options =
    (text "CELL_SIZE_SMALL", text "小号")
    ∷ (text "CELL_SIZE_MEDIUM", text "中号")
    ∷ (text "CELL_SIZE_LARGE", text "大号")
    ∷ []

-- `DURATION_OPTIONS`: minutes and labels
unfoldable pub duration_options : List (ℕ × Text)
duration_options =
    (60, text "1小时") ∷ (120, text "2小时") ∷ (240, text "4小时") ∷ (1440, text "24小时") ∷ []

pub record LockerSelection : Type 0 where
  pub site_id : Text
  pub site_name : Text
  pub size : Text
  pub duration_minutes : ℕ

-- The page when it is opened; `URIError` where the name is no encoded component.
unfoldable pub start : Option Text → Option Text → Result LockerSelection
start site_id site_name = do
  name ← decode_uri_component (site_name or [])
  ok (record {
    site_id = site_id or [];
    site_name = name;
    size = text "CELL_SIZE_SMALL";
    duration_minutes = 60;
  })

-- A tap on an option: its place in the list.
pub data Event : Type 0 where
  tap_size tap_duration : ℕ → Event

abbrev pub option_at {ℓ} : {A : Type ℓ} → ℕ → List (A × Text) → A → A
option_at i [] default = default
option_at zero ((a, label) ∷ rest) default = a
option_at (suc i) ((a, label) ∷ rest) default = option_at i rest default

unfoldable pub step : LockerSelection → Event → LockerSelection
step s (tap_size i) = record s { size = option_at i size_options s.size }
step s (tap_duration i) = record s {
  duration_minutes = option_at i duration_options s.duration_minutes;
}

unfoldable pub run : LockerSelection → List Event → LockerSelection
run s [] = s
run s (e ∷ es) = run (step s e) es

-- `next`: the page that the button opens.
unfoldable pub next : LockerSelection → Result Text
next s = do
  id ← encode_uri_component s.site_id
  ok (
      text "/pages/order-confirm/index?siteId="
      ++ (id
          ++ (text "&size=" ++ (s.size ++ (text "&durationMinutes=" ++ print s.duration_minutes)))))

-- An option: its label, and whether it is active.
pub record OptionRow : Type 0 where
  pub label : Text
  pub active : Bool

pub record SelectionScreen : Type 0 where
  pub title : Text
  pub subtitle : Text
  pub sizes : List OptionRow
  pub durations : List OptionRow
  pub hint : Text
  pub button : Text

-- The value that `LockerSelectionPage` returns.
unfoldable pub selection_screen : LockerSelection → SelectionScreen
selection_screen s = record {
  title = if truthy s.site_name then s.site_name else text "选择柜格";
  subtitle = text "选择柜格大小与寄存时长";
  sizes =
      map
        (λ ((value, label) : Text × Text). record { label = label; active = text_eq s.size value })
        size_options;
  durations =
      map
        (λ ((minutes, label) : ℕ × Text). record {
          label = label;
          active = s.duration_minutes == minutes;
        })
        duration_options;
  hint = text "费用以下单后服务端返回的金额为准";
  button = text "下一步";
}
