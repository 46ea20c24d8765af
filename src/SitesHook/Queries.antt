-- ===== src/SitesHook/Queries.antt =====
-- Every open request of the hook is a query for sites near known coordinates.
use smart_parcel_locker.Prelude.{
  not, ◌||◌, All-append, ltb, is_some, text_eq, ℕ, zero, suc, ◌-◌, Text, Bool, true, false, Option,
  none, some, List, [], ◌∷◌, ◌&&◌, Result, ok, err, ◌≡◌, refl, All, if◌then◌else◌,
}
use smart_parcel_locker.Prelude.Floats.{Floats}
use smart_parcel_locker.Prelude.Int.{pos}
use smart_parcel_locker.Prelude.Number.{Number, int}
use smart_parcel_locker.SiteClient.{ListSitesInput, SiteSummaryDto}
use smart_parcel_locker.Location.{Coordinates}
use smart_parcel_locker.Stores.Location.{LocationStore, set_coordinates}
use smart_parcel_locker.SitesHook.{
  SitesHook, loading, Event, locate_settled, load_settled, tap_retry, city_selected,
  located_elsewhere, is_located, adopt, step, start, load, locate, sent, query_at, same_place,
  locate_effect, load_effect, retry, can_retry, settle_locate, settle_load, take_out,
}

-- A request for the sites of some city within 5000 metres of known coordinates.
abbrev pub IsQuery : ListSitesInput → Type 0
IsQuery q =
    (is_some q.latitude ≡ true)
    × (is_some q.longitude ≡ true)
    × (q.radius_m ≡ some (int (pos 5000)))

abbrev pub AreQueries : SitesHook → Type 0
AreQueries s = All IsQuery s.pending

sent-IsQuery :
    (city : Text) (latitude longitude : Option Number) (pending : List ListSitesInput)
    → All IsQuery pending
    → All IsQuery (sent (query_at city latitude longitude) pending)
unfolding sent
sent-IsQuery city none longitude pending h = h
sent-IsQuery city (some a) none pending h = h
sent-IsQuery city (some a) (some b) pending h =
    All-append IsQuery pending _ h ((refl, refl, refl), tt)

load-AreQueries : (s : SitesHook) → AreQueries s → AreQueries (load s)
unfolding load
load-AreQueries s h = sent-IsQuery s.store.city_code s.store.latitude s.store.longitude s.pending h

Queries-if :
    (b : Bool) (s t : SitesHook) → AreQueries s → AreQueries t → AreQueries (if b then s else t)
Queries-if true s t p q = p
Queries-if false s t p q = q

locate_effect-AreQueries :
    (changed : Bool) (s : SitesHook) → AreQueries s → AreQueries (locate_effect changed s)
unfolding locate_effect locate
locate_effect-AreQueries changed s h = Queries-if (changed && not (is_located s.store)) _ s h h

load_effect-AreQueries :
    (changed : Bool) (s : SitesHook) → AreQueries s → AreQueries (load_effect changed s)
unfolding load_effect
load_effect-AreQueries changed s h = Queries-if changed (load s) s (load-AreQueries s h) h

adopt-AreQueries : (new : LocationStore) (s : SitesHook) → AreQueries s → AreQueries (adopt new s)
unfolding adopt
adopt-AreQueries new s h =
    let moved = not (same_place s.store new) in
    let renamed = not (text_eq s.store.city_code new.city_code) in
    let seen = locate_effect moved (record s { store = new }) in
    load_effect-AreQueries (moved || renamed) seen
      (locate_effect-AreQueries moved (record s { store = new }) h)

retry-AreQueries : (s : SitesHook) → AreQueries s → AreQueries (retry s)
unfolding retry locate
retry-AreQueries s h = Queries-if (is_located s.store) (load s) _ (load-AreQueries s h) h

-- The requests are queries, the answered one and those that stay open.
abbrev pub AreAnswered : Option (ListSitesInput × List ListSitesInput) → Type 0
AreAnswered none = Unit
AreAnswered (some (query, rest)) = IsQuery query × All IsQuery rest

AreAnswered-skip :
    (q : ListSitesInput) (found : Option (ListSitesInput × List ListSitesInput))
    → IsQuery q
    → AreAnswered found
    → AreAnswered (elim found [ none ↦ none | some (query, rest) ↦ some (query, q ∷ rest) ])
AreAnswered-skip q none here h = tt
AreAnswered-skip q (some (query, rest)) here (found, others) = (found, (here, others))

pub take_out-AreAnswered :
    (i : ℕ) (pending : List ListSitesInput) → All IsQuery pending → AreAnswered (take_out i pending)
unfolding take_out
take_out-AreAnswered i [] h = tt
take_out-AreAnswered zero (q ∷ others) h = h
take_out-AreAnswered (suc i) (q ∷ others) (here, h) =
    AreAnswered-skip q (take_out i others) here (take_out-AreAnswered i others h)

settle_load-AreQueries :
    (f : Floats) (r : Result (List SiteSummaryDto))
    (found : Option (ListSitesInput × List ListSitesInput)) (s : SitesHook)
    → AreQueries s
    → AreAnswered found
    → AreQueries (settle_load f r found s)
unfolding settle_load
settle_load-AreQueries f r none s h answered = h
settle_load-AreQueries f r (some (query, rest)) s h (_, others) = others

settle_locate-AreQueries :
    (r : Result Coordinates) (s : SitesHook) → AreQueries s → AreQueries (settle_locate r s)
unfolding settle_locate
settle_locate-AreQueries (ok c) s h =
    adopt-AreQueries (set_coordinates c.latitude c.longitude s.store)
      (record s { locating = s.locating - 1 }) h
settle_locate-AreQueries (err e) s h = h

pub step-AreQueries :
    (f : Floats) (s : SitesHook) (e : Event) → AreQueries s → AreQueries (step f s e)
unfolding step
step-AreQueries f s (locate_settled r) h =
    Queries-if (ltb 0 s.locating) (settle_locate r s) s (settle_locate-AreQueries r s h) h
step-AreQueries f s (load_settled i r) h =
    settle_load-AreQueries f r (take_out i s.pending) s h (take_out-AreAnswered i s.pending h)
step-AreQueries f s tap_retry h =
    Queries-if (can_retry s.state) (retry s) s (retry-AreQueries s h) h
step-AreQueries f s (city_selected code name) h = adopt-AreQueries _ s h
step-AreQueries f s (located_elsewhere c) h = adopt-AreQueries _ s h

pub start-AreQueries : (store : LocationStore) → AreQueries (start store)
unfolding start
start-AreQueries store =
    let first : SitesHook = record { store = store; state = loading; locating = 0; pending = [] } in
    load_effect-AreQueries true (locate_effect true first) (locate_effect-AreQueries true first tt)
