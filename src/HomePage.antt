-- ===== src/HomePage.antt =====
-- frontend/apps/miniapp/src/pages/home/index.tsx: the first page, with the sites near the user, the
-- search among them and the card of the active order. The stores of the location and of the active
-- order are shared with other pages, so events change them from outside.
pub mod Search
pub mod ActiveOrder
use smart_parcel_locker.Prelude.{
  ℕ, zero, suc, ◌++◌, Text, text, text_eq, truthy, trim, Bool, true, false, ◌||◌, ◌==◌, Option,
  none, some, ◌or◌, ◌or_else◌, List, [], ◌∷◌, map, Result, ok, err, ◌>>=◌, if◌then◌else◌, ltb,
}
use smart_parcel_locker.Prelude.Floats.{Floats}
use smart_parcel_locker.Prelude.Uri.{encode_uri_component}
use smart_parcel_locker.OrderClient.{OrderDto}
use smart_parcel_locker.OrderHook.{OrderHook, LoadState, initial_hook, reload, settle_reload}
use smart_parcel_locker.DetailPage.{is_terminal}
use smart_parcel_locker.SiteView.{SiteCardView, SiteCard, site_card}
use smart_parcel_locker.SitesHook.{SitesHook, SitesState}
use smart_parcel_locker.SitesHook
use smart_parcel_locker.SitesPage.{panel_kind}
use smart_parcel_locker.Stores.Storage.{Storage}
use smart_parcel_locker.Stores.Location.{LocationStore}
use smart_parcel_locker.Stores.ActiveOrder.{
  ActiveOrderStore, hydrate, set_active_order, clear_active_order,
}
use smart_parcel_locker.Components.{StatePanel, state_panel, empty, StatusPill, status_pill}

-- `s.startsWith(k)`
abbrev pub starts_with : Text → Text → Bool
starts_with s [] = true
starts_with [] (d ∷ k) = false
starts_with (c ∷ s) (d ∷ k) = if c == d then starts_with s k else false

-- `s.includes(k)`
unfoldable pub includes : Text → Text → Bool
includes [] k = starts_with [] k
includes (c ∷ s) k = starts_with (c ∷ s) k || includes s k

-- `sites.filter(…)`
unfoldable pub matching : Text → List SiteCardView → List SiteCardView
matching keyword [] = []
matching keyword (s ∷ rest) =
    let found = matching keyword rest in
    if includes s.name keyword || includes s.address keyword then s ∷ found else found

-- `sites.slice(0, 2)`
unfoldable pub first_two : List SiteCardView → List SiteCardView
first_two (a ∷ b ∷ rest) = a ∷ b ∷ []
first_two sites = sites

-- `filteredSites`
unfoldable pub filtered_sites : Text → List SiteCardView → List SiteCardView
filtered_sites keyword sites = if truthy keyword then matching keyword sites else first_two sites

-- `renderSearchResults`
pub data SearchResults : Type 0 where
  no_results : Text → SearchResults
  site_cards : List SiteCard → SearchResults

abbrev results_of : Bool → List SiteCardView → SearchResults
results_of true [] = no_results (text "未找到匹配的网点")
results_of searching filtered = site_cards (map site_card filtered)

unfoldable pub render_search_results : Text → List SiteCardView → SearchResults
render_search_results keyword sites = results_of (truthy keyword) (filtered_sites keyword sites)

-- `renderActiveOrder`; a tap on the card opens `orderRoute`.
pub data OrderCard : Type 0 where
  no_order : Text → Text → Text → OrderCard
  order_skeleton : OrderCard
  order_card : Text → Text → StatusPill → Text → OrderCard

abbrev card_at : LoadState → Option OrderDto → OrderCard
card_at LoadState.loading order = order_skeleton
card_at _ none = order_skeleton
card_at _ (some order) =
    order_card (text "当前订单") (order.site_name ++ (text " · 柜格 " ++ order.cell_no))
      (status_pill order.status) (text "点击查看")

unfoldable pub render_active_order : Option Text → LoadState → Option OrderDto → OrderCard
render_active_order active load_state order =
    if truthy (active or [])
    then card_at load_state order
    else no_order (text "当前订单") (text "暂无进行中的订单") (text "选择附近网点开始寄存")

-- The page that a tap on the card of the active order opens.
unfoldable pub active_order_route : Text → Result Text
active_order_route id = do
  encoded ← encode_uri_component id
  ok (text "/pages/order-detail/index?orderId=" ++ encoded)

pub record HomePage (S : Type 0) : Type 0 where
  pub sites : SitesHook
  pub keyword : Text
  pub active : ActiveOrderStore S
  pub hook : OrderHook

pub data Event : Type 0 where
  sites_event : SitesHook.Event → Event
  -- the values of the event's `detail` and of its `target`
  typed : Option Text → Option Text → Event
  order_settled : Result OrderDto → Event
  -- the confirmation page has created an order
  order_created : Text → Event

-- `useOrder(activeOrderId ?? "")`: the hook loads the order again where the id has changed.
unfoldable pub follow : Option Text → Option Text → OrderHook → OrderHook
follow old new h = if text_eq (old or []) (new or []) then h else reload (new or []) h

-- The search field is on the page where there are sites.
abbrev pub shows_search : SitesState → Bool
shows_search (SitesState.success (site ∷ rest)) = true
shows_search _ = false

module _ {S : Type 0} (storage : Storage S) where
  -- The store of the active order has a new state.
  unfoldable pub adopt_active : ActiveOrderStore S → HomePage S → HomePage S
  unfolding follow
  adopt_active new s = record s {
    active = new;
    hook = follow s.active.active_order_id new.active_order_id s.hook;
  }

  -- The effect over the loaded order, which runs where a new one has come.
  unfoldable pub clear_if_ended : OrderDto → HomePage S → HomePage S
  unfolding adopt_active
  clear_if_ended order s =
      if is_terminal order.status then adopt_active (clear_active_order storage s.active) s else s

  unfoldable pub settle_order : Result OrderDto → HomePage S → HomePage S
  unfolding clear_if_ended
  settle_order (ok order) s =
      clear_if_ended order (record s { hook = settle_reload (ok order) s.hook })
  settle_order (err failure) s = record s { hook = settle_reload (err failure) s.hook }

  unfoldable pub step : Floats → HomePage S → Event → HomePage S
  unfolding adopt_active settle_order
  step f s (sites_event e) = record s { sites = SitesHook.step f s.sites e }
  step f s (typed detail target) =
      if shows_search s.sites.state
      then record s { keyword = trim (detail or_else target or []) }
      else s
  step f s (order_settled r) = if ltb 0 s.hook.pending then settle_order r s else s
  step f s (order_created id) = adopt_active (set_active_order storage id s.active) s

  -- The page when it is opened: the hooks load, then the store is hydrated.
  unfoldable pub start : LocationStore → ActiveOrderStore S → HomePage S
  unfolding adopt_active
  start location active = adopt_active (hydrate storage active) (record {
    sites = SitesHook.start location;
    keyword = [];
    active = active;
    hook = reload (active.active_order_id or []) initial_hook;
  })

  unfoldable pub run : Floats → HomePage S → List Event → HomePage S
  run f s [] = s
  run f s (e ∷ es) = run f (step f s e) es

pub record HomeScreen : Type 0 where
  pub city : Text
  pub search : Text
  pub card : OrderCard
  pub heading : Text
  pub results : SearchResults

pub data Screen : Type 0 where
  skeleton : Screen
  panel : StatePanel → Screen
  home : HomeScreen → Screen

screen_of : {S : Type 0} → HomePage S → SitesState → Screen
screen_of s SitesState.loading = skeleton
screen_of s (SitesState.error code trace_id) = panel (state_panel (panel_kind code) trace_id)
screen_of s (SitesState.success []) = panel (state_panel empty none)
screen_of s (SitesState.success (site ∷ rest)) = home (record {
  city = s.sites.store.city_name ++ text " · 定位成功";
  search = s.keyword;
  card = render_active_order s.active.active_order_id s.hook.load_state s.hook.order;
  heading = if truthy s.keyword then text "搜索结果" else text "附近寄存点";
  results = render_search_results s.keyword (site ∷ rest);
})

-- The value that `HomePage` returns.
unfoldable pub home_screen : {S : Type 0} → HomePage S → Screen
unfolding screen_of
home_screen s = screen_of s s.sites.state
