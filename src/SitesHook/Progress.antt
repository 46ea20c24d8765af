-- ===== src/SitesHook/Progress.antt =====
-- The hook does not wait in vain.
use smart_parcel_locker.Prelude.{
  if◌then◌else◌, ltb, is_some, text_eq, Bool-cases, ℕ, ◌-◌, ◌<◌, Text, Bool, true, false, Option,
  none, some, List, [], ◌∷◌, ◌&&◌, Result, ok, err, length, length-append, ◌≡◌, refl, ◌⊎◌, inl, inr,
  arith,
}
use smart_parcel_locker.Prelude.Floats.{Floats}
use smart_parcel_locker.SiteClient.{ListSitesInput, SiteSummaryDto}
use smart_parcel_locker.Location.{Coordinates}
use smart_parcel_locker.Stores.Location.{LocationStore, select_city, set_coordinates}
use smart_parcel_locker.SitesHook.{
  Number, SitesHook, loading, Event, locate_settled, load_settled, tap_retry, city_selected,
  located_elsewhere, is_located, adopt, step, start, run, load, locate, sent, query_at, same_place,
  locate_effect, load_effect, retry, can_retry, settle_locate, settle_load, take_out,
}

-- While the hook is loading, a request is open; before the coordinates are known, a call for them.
abbrev pub Waits : SitesHook → Type 0
Waits s =
    ((is_located s.store ≡ true) × (0 < length s.pending))
    ⊎ ((is_located s.store ≡ false) × (0 < s.locating))

abbrev Fair : SitesHook → Type 0
Fair s = s.state ≡ loading → Waits s

-- The event leaves the city alone, or the coordinates are known.
abbrev pub IsOffered : SitesHook → Event → Type 0
IsOffered s (city_selected code name) = is_located s.store ≡ true
IsOffered s _ = Unit

-- The city is changed only where the coordinates are known, as on the page that links to the cities.
abbrev pub Offered : Floats → SitesHook → List Event → Type 0
Offered f s [] = Unit
Offered f s (e ∷ es) = IsOffered s e × Offered f (step f s e) es

sent-lt :
    (city : Text) (latitude longitude : Option Number) (pending : List ListSitesInput)
    → (is_some latitude && is_some longitude) ≡ true
    → 0 < length (sent (query_at city latitude longitude) pending)
unfolding sent
sent-lt city none longitude pending h = cc
sent-lt city (some a) none pending h = cc
sent-lt city (some a) (some b) pending h = omega (arith, length-append pending)

load-Waits : (s : SitesHook) → is_located s.store ≡ true → Waits (load s)
unfolding load
load-Waits s h = inl (h, sent-lt s.store.city_code s.store.latitude s.store.longitude s.pending h)

adopt_moved :
    (new : LocationStore) (s : SitesHook)
    → is_located new ≡ true
    → same_place s.store new ≡ false
    → adopt new s ≡ load (record s { store = new })
unfolding adopt locate_effect load_effect
adopt_moved new s known moved = rw (moved, known)

adopt_renamed :
    (new : LocationStore) (s : SitesHook)
    → same_place s.store new ≡ true
    → text_eq s.store.city_code new.city_code ≡ false
    → adopt new s ≡ load (record s { store = new })
unfolding adopt locate_effect load_effect
adopt_renamed new s same renamed = rw (same, renamed)

adopt_kept :
    (new : LocationStore) (s : SitesHook)
    → same_place s.store new ≡ true
    → text_eq s.store.city_code new.city_code ≡ true
    → adopt new s ≡ record s { store = new }
unfolding adopt locate_effect load_effect
adopt_kept new s same here = rw (same, here)

Waits-load : (s : SitesHook) → is_located s.store ≡ true → Fair (load s)
Waits-load s known h = load-Waits s known

-- Such a hook waits with any store in which the coordinates are known.
Fair-of_located :
    (new : LocationStore) (s : SitesHook)
    → is_located new ≡ true
    → is_located s.store ≡ true
    → Fair s
    → Fair (record s { store = new })
Fair-of_located new s known was fair h = elim (fair h) [
  | inl (_, some_open) ↦ inl (known, some_open)
  | inr (unknown, _) ↦ cc (was, unknown)
]

-- A store in which the coordinates are known.
adopt-Fair :
    (new : LocationStore) (s : SitesHook)
    → is_located new ≡ true
    → (same_place s.store new ≡ true → is_located s.store ≡ true)
    → (is_located s.store ≡ true → Fair s)
    → Fair (adopt new s)
adopt-Fair new s known kept fair = elim (Bool-cases (same_place s.store new)) [
  | inl same ↦ elim (Bool-cases (text_eq s.store.city_code new.city_code)) [
    | inl here ↦
        rw (adopt_kept new s same here) (Fair-of_located new s known (kept same) (fair (kept same)))
    | inr there ↦ rw (adopt_renamed new s same there) (Waits-load (record s { store = new }) known)
  ]
  | inr moved ↦ rw (adopt_moved new s known moved) (Waits-load (record s { store = new }) known)
]

located_of_same :
    (latitude longitude : Number) (old : LocationStore)
    → same_place old (set_coordinates latitude longitude old) ≡ true
    → is_located old ≡ true
unfolding same_place set_coordinates
located_of_same latitude longitude old h = ground arith

located_elsewhere-Fair :
    (c : Coordinates) (s : SitesHook)
    → Fair s
    → Fair (adopt (set_coordinates c.latitude c.longitude s.store) s)
unfolding set_coordinates
located_elsewhere-Fair c s fair =
    adopt-Fair (set_coordinates c.latitude c.longitude s.store) s refl
      (located_of_same c.latitude c.longitude s.store) (λ was. fair)

city_selected-Fair :
    (code name : Text) (s : SitesHook)
    → is_located s.store ≡ true
    → Fair s
    → Fair (adopt (select_city code name s.store) s)
unfolding select_city
city_selected-Fair code name s known fair =
    adopt-Fair (select_city code name s.store) s known (λ same. known) (λ was. fair)

retry-Fair : (s : SitesHook) → Fair (retry s)
unfolding retry locate
retry-Fair s h = elim (Bool-cases (is_located s.store)) [
  | inl known ↦ rw known (load-Waits s known)
  | inr unknown ↦ rw unknown (inr (unknown, omega arith))
]

-- One call less, where the coordinates are known.
located-Fair :
    (s : SitesHook) (n : ℕ) → Fair s → is_located s.store ≡ true → Fair (record s { locating = n })
located-Fair s n fair known h = elim (fair h) [
  | inl open_request ↦ inl open_request
  | inr (unknown, _) ↦ cc (known, unknown)
]

settle_locate-Fair : (r : Result Coordinates) (s : SitesHook) → Fair s → Fair (settle_locate r s)
unfolding settle_locate set_coordinates
settle_locate-Fair (err e) s fair = λ h. cc (h)
settle_locate-Fair (ok c) s fair =
    adopt-Fair (set_coordinates c.latitude c.longitude s.store)
      (record s { locating = s.locating - 1 }) refl (located_of_same c.latitude c.longitude s.store)
      (located-Fair s (s.locating - 1) fair)

settle_load-Fair :
    (f : Floats) (r : Result (List SiteSummaryDto))
    (found : Option (ListSitesInput × List ListSitesInput)) (s : SitesHook)
    → Fair s
    → Fair (settle_load f r found s)
unfolding settle_load
settle_load-Fair f r none s fair = fair
settle_load-Fair f (ok sites) (some (query, others)) s fair = λ h. cc (h)
settle_load-Fair f (err e) (some (query, others)) s fair = λ h. cc (h)

Fair-if : (b : Bool) (s t : SitesHook) → Fair s → Fair t → Fair (if b then s else t)
Fair-if true s t p q = p
Fair-if false s t p q = q

step-Fair : (f : Floats) (s : SitesHook) (e : Event) → IsOffered s e → Fair s → Fair (step f s e)
unfolding step
step-Fair f s (locate_settled r) ok_here fair =
    Fair-if (ltb 0 s.locating) (settle_locate r s) s (settle_locate-Fair r s fair) fair
step-Fair f s (load_settled i r) ok_here fair = settle_load-Fair f r (take_out i s.pending) s fair
step-Fair f s tap_retry ok_here fair = Fair-if (can_retry s.state) (retry s) s (retry-Fair s) fair
step-Fair f s (city_selected code name) known fair = city_selected-Fair code name s known fair
step-Fair f s (located_elsewhere c) ok_here fair = located_elsewhere-Fair c s fair

run-Fair :
    (f : Floats) (s : SitesHook) (es : List Event) → Offered f s es → Fair s → Fair (run f s es)
unfolding run
run-Fair f s [] offered fair = fair
run-Fair f s (e ∷ es) (here, offered) fair =
    run-Fair f (step f s e) es offered (step-Fair f s e here fair)

start_of_unknown :
    (store : LocationStore)
    → is_located store ≡ false
    → start store
      ≡ load (locate (record { store = store; state = loading; locating = 0; pending = [] }))
unfolding start load_effect locate_effect
start_of_unknown store unknown = rw unknown

start_of_known :
    (store : LocationStore)
    → is_located store ≡ true
    → start store ≡ load (record { store = store; state = loading; locating = 0; pending = [] })
unfolding start load_effect locate_effect
start_of_known store known = rw known

load-locate-Waits : (s : SitesHook) → is_located s.store ≡ false → Waits (load (locate s))
unfolding load locate
load-locate-Waits s unknown = inr (unknown, omega arith)

start-Waits : (store : LocationStore) → Waits (start store)
start-Waits store = elim (Bool-cases (is_located store)) [
  | inl known ↦ rw (start_of_known store known) (load-Waits _ known)
  | inr unknown ↦ rw (start_of_unknown store unknown) (load-locate-Waits _ unknown)
]

-- While the list of sites is loading, a promise is open that will change it: a request for the sites
-- where the coordinates are known, and a call for the coordinates before, as long as the city is
-- changed only where the coordinates are known.
pub sites_run-Waits :
    (f : Floats) (store : LocationStore) (es : List Event)
    → Offered f (start store) es
    → (run f (start store) es).state ≡ loading
    → Waits (run f (start store) es)
sites_run-Waits f store es offered h =
    run-Fair f (start store) es offered (λ first. start-Waits store) h
