-- ===== src/SitesHook.antt =====
-- frontend/apps/miniapp/src/features/sites/use-sites.ts: the sites near the user, with the store of
-- the location that all pages share. A handler is split at its `await`; an effect runs when a value
-- that it depends on has changed. Which pending request a reply answers is part of the event, since
-- replies may come in any order.
mod Queries
pub mod Replies
pub mod Progress
use smart_parcel_locker.Prelude.{
  ℕ, zero, suc, ◌+◌, ◌-◌, Text, text, text_eq, Bool, true, false, not, ◌&&◌, ◌||◌, Option, none,
  some, is_some, List, [], ◌∷◌, ◌++◌, map, Result, ok, err, AppErrorCode, if◌then◌else◌, ltb,
}
use smart_parcel_locker.Prelude.Int.{pos}
use smart_parcel_locker.Prelude.Number.{Number, int}
use smart_parcel_locker.Prelude.Floats.{Floats, same_number}
use smart_parcel_locker.SiteClient.{ListSitesInput, SiteSummaryDto}
use smart_parcel_locker.SiteView.{SiteCardView, to_site_card_view}
use smart_parcel_locker.Location.{Coordinates}
use smart_parcel_locker.OrderHook.{to_app_error}
use smart_parcel_locker.Components.{when_truthy}
use smart_parcel_locker.Stores.Location.{LocationStore, select_city, set_coordinates}

-- `errorCode`
pub data ErrorCode : Type 0 where
  location_unavailable : ErrorCode
  app_code : AppErrorCode → ErrorCode

pub data SitesState : Type 0 where
  loading : SitesState
  success : List SiteCardView → SitesState
  error : ErrorCode → Option Text → SitesState

pub record SitesHook : Type 0 where
  pub store : LocationStore
  pub state : SitesState
  -- calls of `getCurrentCoordinates` that have not settled
  pub locating : ℕ
  -- the requests of `listSites` that have not settled, the oldest first
  pub pending : List ListSitesInput

pub data Event : Type 0 where
  locate_settled : Result Coordinates → Event
  load_settled : ℕ → Result (List SiteSummaryDto) → Event
  tap_retry : Event
  -- the page of the cities, and another page that has found the user
  city_selected : Text → Text → Event
  located_elsewhere : Coordinates → Event

-- The request of `load`, where the coordinates are known.
abbrev pub query_at : Text → Option Number → Option Number → Option ListSitesInput
query_at city none longitude = none
query_at city (some latitude) none = none
query_at city (some latitude) (some longitude) = some (record {
  city_code = city;
  latitude = some latitude;
  longitude = some longitude;
  radius_m = some (int (pos 5000));
})

abbrev pub query_of : LocationStore → Option ListSitesInput
query_of store = query_at store.city_code store.latitude store.longitude

-- `latitude !== undefined && longitude !== undefined`
abbrev pub is_located : LocationStore → Bool
is_located store = is_some store.latitude && is_some store.longitude

-- `locate` up to its `await`
unfoldable pub locate : SitesHook → SitesHook
locate s = record s { state = loading; locating = s.locating + 1 }

sent : Option ListSitesInput → List ListSitesInput → List ListSitesInput
sent none pending = pending
sent (some query) pending = pending ++ query ∷ []

-- `load` up to its `await`
unfoldable pub load : SitesHook → SitesHook
unfolding sent
load s = record s { state = loading; pending = sent (query_of s.store) s.pending }

same_option : Option Number → Option Number → Bool
same_option none none = true
same_option (some a) (some b) = same_number a b
same_option _ _ = false

same_place : LocationStore → LocationStore → Bool
unfolding same_option
same_place old new =
    same_option old.latitude new.latitude && same_option old.longitude new.longitude

-- The effect over `locate`, which runs where the coordinates have changed.
locate_effect : Bool → SitesHook → SitesHook
unfolding locate
locate_effect changed s = if changed && not (is_located s.store) then locate s else s

-- The effect over `load`, which runs where the city or the coordinates have changed.
load_effect : Bool → SitesHook → SitesHook
unfolding load
load_effect changed s = if changed then load s else s

-- The store has a new state: the hook sees it, and the two effects run in their order.
unfoldable pub adopt : LocationStore → SitesHook → SitesHook
unfolding same_place locate_effect load_effect
adopt new s =
    let moved = not (same_place s.store new) in
    let renamed = not (text_eq s.store.city_code new.city_code) in
    load_effect (moved || renamed) (locate_effect moved (record s { store = new }))

-- `locate` from its `await` on
unfoldable pub settle_locate : Result Coordinates → SitesHook → SitesHook
unfolding adopt
settle_locate (ok c) s =
    adopt (set_coordinates c.latitude c.longitude s.store) (record s { locating = s.locating - 1 })
settle_locate (err f) s = record s {
  state = error location_unavailable none;
  locating = s.locating - 1;
}

-- `load` from its `await` on
settled_state : Floats → Result (List SiteSummaryDto) → SitesState
settled_state f (ok sites) = success (map (to_site_card_view f) sites)
settled_state f (err e) =
    error (app_code (to_app_error e).code) (when_truthy (to_app_error e).trace_id)

-- The i-th request, and the others.
unfoldable pub take_out : ℕ → List ListSitesInput → Option (ListSitesInput × List ListSitesInput)
take_out i [] = none
take_out zero (q ∷ rest) = some (q, rest)
take_out (suc i) (q ∷ rest) = elim (take_out i rest) [
  | none ↦ none
  | some (found, others) ↦ some (found, q ∷ others)
]

settle_load :
    Floats
    → Result (List SiteSummaryDto)
    → Option (ListSitesInput × List ListSitesInput)
    → SitesHook
    → SitesHook
unfolding settled_state
settle_load f r none s = s
settle_load f r (some (query, others)) s = record s { state = settled_state f r; pending = others }

-- `retry`
unfoldable pub retry : SitesHook → SitesHook
unfolding locate load
retry s = if is_located s.store then load s else locate s

-- The panel for an error or for no sites has a button; nothing else calls `retry`.
abbrev pub can_retry : SitesState → Bool
can_retry loading = false
can_retry (success []) = true
can_retry (success (site ∷ rest)) = false
can_retry (error code trace_id) = true

unfoldable pub step : Floats → SitesHook → Event → SitesHook
unfolding settle_locate settle_load adopt retry
step f s (locate_settled r) = if ltb 0 s.locating then settle_locate r s else s
step f s (load_settled i r) = settle_load f r (take_out i s.pending) s
step f s tap_retry = if can_retry s.state then retry s else s
step f s (city_selected code name) = adopt (select_city code name s.store) s
step f s (located_elsewhere c) = adopt (set_coordinates c.latitude c.longitude s.store) s

-- The hook when its page is opened: both effects run.
unfoldable pub start : LocationStore → SitesHook
unfolding locate_effect load_effect
start store =
    load_effect true
      (locate_effect true (record { store = store; state = loading; locating = 0; pending = [] }))

unfoldable pub run : Floats → SitesHook → List Event → SitesHook
run f s [] = s
run f s (e ∷ es) = run f (step f s e) es
