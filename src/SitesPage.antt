-- ===== src/SitesPage.antt =====
-- frontend/apps/miniapp/src/pages/sites/index.tsx: the page of the sites near the user, and
-- frontend/apps/miniapp/src/pages/location/index.tsx: the page of the cities.
use smart_parcel_locker.Prelude.{
  ◌++◌, Text, text, Bool, true, none, List, [], ◌∷◌, map, length, Result, ok, err, ◌>>=◌,
  device_offline,
}
use smart_parcel_locker.Prelude.Decimal.{print}
use smart_parcel_locker.Prelude.Uri.{encode_uri_component}
use smart_parcel_locker.SiteClient.{CityDto}
use smart_parcel_locker.SiteView.{SiteCard, site_card}
use smart_parcel_locker.SitesHook.{
  ErrorCode, location_unavailable, app_code, SitesState, loading, success, error,
}
use smart_parcel_locker.Stores.Location.{LocationStore, select_city}
use smart_parcel_locker.Components.{
  PanelKind, empty, network, offline, location, StatePanel, state_panel,
}

-- The panel for an error.
unfoldable pub panel_kind : ErrorCode → PanelKind
panel_kind location_unavailable = location
panel_kind (app_code device_offline) = offline
panel_kind (app_code _) = network

-- The page that a tap on a card opens.
unfoldable pub site_route : Text → Result Text
site_route id = do
  encoded ← encode_uri_component id
  ok (text "/pages/site-detail/index?id=" ++ encoded)

pub record SitesList : Type 0 where
  pub title : Text
  pub subtitle : Text
  pub cards : List SiteCard

pub data SitesScreen : Type 0 where
  skeleton : SitesScreen
  panel : StatePanel → SitesScreen
  sites_list : SitesList → SitesScreen

-- The value that `SitesPage` returns.
unfoldable pub sites_screen : SitesState → SitesScreen
unfolding panel_kind
sites_screen loading = skeleton
sites_screen (error code trace_id) = panel (state_panel (panel_kind code) trace_id)
sites_screen (success []) = panel (state_panel empty none)
sites_screen (success (site ∷ rest)) = sites_list (record {
  title = text "附近寄存点";
  subtitle = text "共找到" ++ (print (length (site ∷ rest)) ++ text "个站点");
  cards = map site_card (site ∷ rest);
})

-- `LocationPage`: the cities that were loaded, the store that all pages share, and whether the page
-- was left; a failed request is not caught.
pub record LocationPage : Type 0 where
  pub cities : List CityDto
  pub store : LocationStore
  pub left : Bool

unfoldable pub settle_cities : Result (List CityDto) → LocationPage → LocationPage
settle_cities (ok cities) s = record s { cities = cities }
settle_cities (err failure) s = s

-- A tap on a city.
unfoldable pub tap_city : CityDto → LocationPage → LocationPage
tap_city city s = record s { store = select_city city.code city.name s.store; left = true }

-- The rows of the page: a city's name and its province.
unfoldable pub city_rows : LocationPage → List (Text × Text)
city_rows s = map (λ (city : CityDto). (city.name, city.province)) s.cities
