-- ===== src/SiteDetail.antt =====
-- frontend/apps/miniapp/src/pages/site-detail/index.tsx: a site and how many of its cells are free.
pub mod Laws
pub mod FreeCells
use smart_parcel_locker.Prelude.{
  ℕ, ◌+◌, ◌-◌, ◌++◌, Text, text, text_eq, truthy, Bool, true, false, ◌&&◌, ◌==◌, Option, none, some,
  ◌or◌, List, [], ◌∷◌, Result, ok, err, ◌>>=◌, AppErrorCode, device_offline, if◌then◌else◌, ltb,
  length,
}
use smart_parcel_locker.Prelude.Int.{pos}
use smart_parcel_locker.Prelude.Number.{Number, int, other}
use smart_parcel_locker.Prelude.Decimal.{print}
use smart_parcel_locker.Prelude.Uri.{encode_uri_component}
use smart_parcel_locker.SiteClient.{SiteDetailDto, CellDto}
use smart_parcel_locker.OrderHook.{to_app_error}
use smart_parcel_locker.Components.{StatePanel, state_panel, network, offline, when_truthy}

-- `DetailLoadState`
pub data DetailLoadState : Type 0 where
  loading success : DetailLoadState
  failed_network failed_offline : Option Text → DetailLoadState

pub record SiteDetailPage : Type 0 where
  pub site_id : Text
  pub site : Option SiteDetailDto
  pub cells : List CellDto
  pub load_state : DetailLoadState
  -- calls of `load` that wait for their two requests
  pub pending : ℕ
  -- the tabs that were switched to
  pub switched : List Text

pub data Event : Type 0 where
  -- both requests have succeeded, or one has failed
  load_settled : Result (SiteDetailDto × List CellDto) → Event
  tap_retry : Event

-- `load` up to its `await`
unfoldable pub load : SiteDetailPage → SiteDetailPage
load s = if truthy s.site_id then record s { load_state = loading; pending = s.pending + 1 } else s

-- `n === 0`
abbrev pub is_zero : Number → Bool
is_zero (int (pos n)) = n == 0
is_zero _ = false

abbrev pub failed_state : AppErrorCode → Option Text → DetailLoadState
failed_state device_offline trace_id = failed_offline trace_id
failed_state _ trace_id = failed_network trace_id

-- `load` from its `await` on
unfoldable pub settle_load : Result (SiteDetailDto × List CellDto) → SiteDetailPage → SiteDetailPage
settle_load (ok (site, cells)) s = record s {
  site = some site;
  cells = cells;
  load_state = if is_zero site.online_device_count then failed_offline none else success;
  pending = s.pending - 1;
}
settle_load (err f) s = record s {
  load_state = failed_state (to_app_error f).code (when_truthy (to_app_error f).trace_id);
  pending = s.pending - 1;
}

-- The button of the panel: it loads again, or leaves for the tab of the sites.
unfoldable pub retry : DetailLoadState → SiteDetailPage → SiteDetailPage
retry (failed_network trace_id) s = load s
retry (failed_offline trace_id) s = record s {
  switched = s.switched ++ text "/pages/sites/index" ∷ [];
}
retry _ s = s

unfoldable pub step : SiteDetailPage → Event → SiteDetailPage
unfolding settle_load retry
step s (load_settled r) = if ltb 0 s.pending then settle_load r s else s
step s tap_retry = retry s.load_state s

unfoldable pub start : Text → SiteDetailPage
unfolding load
start site_id = load (record {
  site_id = site_id;
  site = none;
  cells = [];
  load_state = loading;
  pending = 0;
  switched = [];
})

unfoldable pub run : SiteDetailPage → List Event → SiteDetailPage
run s [] = s
run s (e ∷ es) = run (step s e) es

abbrev pub is_idle_of : Text → CellDto → Bool
is_idle_of size cell = text_eq cell.size size && text_eq cell.status (text "CELL_STATUS_IDLE")

-- `cells.filter(…).length`
unfoldable pub count : Text → List CellDto → ℕ
count size [] = 0
count size (cell ∷ rest) =
    let more = count size rest in if is_idle_of size cell then more + 1 else more

pub record Counts : Type 0 where
  pub small : ℕ
  pub medium : ℕ
  pub large : ℕ

-- `counts`
unfoldable pub counts : List CellDto → Counts
counts cells = record {
  small = count (text "CELL_SIZE_SMALL") cells;
  medium = count (text "CELL_SIZE_MEDIUM") cells;
  large = count (text "CELL_SIZE_LARGE") cells;
}

abbrev pub site_name : Option SiteDetailDto → Text → Text
site_name none default = default
site_name (some site) default = site.summary.name

abbrev pub site_address : Option SiteDetailDto → Text
site_address none = []
site_address (some site) = site.summary.address

-- The page that the button opens.
unfoldable pub selection_route : SiteDetailPage → Result Text
selection_route s = do
  id ← encode_uri_component s.site_id
  name ← encode_uri_component (site_name s.site [])
  ok (text "/pages/locker-selection/index?siteId=" ++ (id ++ (text "&siteName=" ++ name)))

pub record SiteScreen : Type 0 where
  pub title : Text
  pub subtitle : Text
  pub small : Text × Text
  pub medium : Text × Text
  pub large : Text × Text
  pub button : Text

pub data Screen : Type 0 where
  skeleton : Screen
  panel : StatePanel → Screen
  site_screen : SiteScreen → Screen

screen_of : DetailLoadState → SiteDetailPage → Screen
unfolding counts
screen_of loading s = skeleton
screen_of (failed_network trace_id) s = panel (state_panel network trace_id)
screen_of (failed_offline trace_id) s = panel (state_panel offline trace_id)
screen_of success s = site_screen (record {
  title = site_name s.site (text "正在加载网点");
  subtitle = site_address s.site;
  small = (text "小号", print (counts s.cells).small);
  medium = (text "中号", print (counts s.cells).medium);
  large = (text "大号", print (counts s.cells).large);
  button = text "选择柜格";
})

-- The value that `SiteDetailPage` returns.
unfoldable pub detail_screen : SiteDetailPage → Screen
unfolding screen_of
detail_screen s = screen_of s.load_state s
