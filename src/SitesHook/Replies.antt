-- ===== src/SitesHook/Replies.antt =====
-- The sites that the hook shows are those of an answer to a request that it has sent.
use smart_parcel_locker.Prelude.{
  not, ◌||◌, ltb, text_eq, ℕ, ◌-◌, Bool, true, false, Option, none, some, List, [], ◌∷◌, ◌&&◌,
  Result, ok, err, ◌≡◌, refl, ◌⊎◌, inl, inr, map, if◌then◌else◌,
}
use smart_parcel_locker.Prelude.Floats.{Floats}
use smart_parcel_locker.SiteClient.{ListSitesInput, SiteSummaryDto}
use smart_parcel_locker.SiteView.{SiteCardView, to_site_card_view}
use smart_parcel_locker.Location.{Coordinates}
use smart_parcel_locker.Stores.Location.{LocationStore, set_coordinates}
use smart_parcel_locker.SitesHook.{
  SitesHook, loading, success, Event, locate_settled, load_settled, tap_retry, city_selected,
  located_elsewhere, is_located, adopt, step, start, run, load, locate, same_place, locate_effect,
  load_effect, retry, can_retry, settle_locate, settle_load, take_out, settled_state,
}
use smart_parcel_locker.SitesHook.Queries.{
  IsQuery, AreQueries, AreAnswered, take_out-AreAnswered, step-AreQueries, start-AreQueries,
}

-- `cards` come with the event: it answers an open request with sites whose cards they are.
abbrev pub Shows : Floats → SitesHook → Event → List SiteCardView → Type 0
Shows f s (load_settled i (ok sites)) cards =
    (cards ≡ map (to_site_card_view f) sites)
    × ((query : ListSitesInput) × (rest : List ListSitesInput) × (take_out i s.pending
          ≡ some (query, rest))
        × IsQuery query)
Shows f s _ cards = ⊥

-- One of the events brings `cards`.
abbrev pub ShownBy : Floats → SitesHook → List Event → List SiteCardView → Type 0
ShownBy f s [] cards = ⊥
ShownBy f s (e ∷ es) cards = Shows f s e cards ⊎ ShownBy f (step f s e) es cards

-- The cards of the new state, where it has any, are those of the old one.
abbrev Keeps : List SiteCardView → SitesHook → SitesHook → Type 0
Keeps cards s next = next.state ≡ success cards → s.state ≡ success cards

module _ (cards : List SiteCardView) where
  Keeps-if :
      (b : Bool) (s t u : SitesHook)
      → Keeps cards s t
      → Keeps cards s u
      → Keeps cards s (if b then t else u)
  Keeps-if true s t u p q = p
  Keeps-if false s t u p q = q

  load-Keeps : (s : SitesHook) → Keeps cards s (load s)
  unfolding load
  load-Keeps s h = cc (h)

  locate-Keeps : (s : SitesHook) → Keeps cards s (locate s)
  unfolding locate
  locate-Keeps s h = cc (h)

  adopt-Keeps : (new : LocationStore) (s : SitesHook) → Keeps cards s (adopt new s)
  unfolding adopt locate_effect load_effect
  adopt-Keeps new s h =
      let moved = not (same_place s.store new) in
      let renamed = not (text_eq s.store.city_code new.city_code) in
      let next = record s { store = new } in
      let seen = locate_effect moved next in
      Keeps-if (moved && not (is_located new)) next (locate next) next (locate-Keeps next) (λ e. e)
        (Keeps-if (moved || renamed) seen (load seen) seen (load-Keeps seen) (λ e. e) h)

  retry-Keeps : (s : SitesHook) → Keeps cards s (retry s)
  unfolding retry
  retry-Keeps s =
      Keeps-if (is_located s.store) s (load s) (locate s) (load-Keeps s) (locate-Keeps s)

  settle_locate-Keeps : (r : Result Coordinates) (s : SitesHook) → Keeps cards s (settle_locate r s)
  unfolding settle_locate
  settle_locate-Keeps (ok c) s h =
      adopt-Keeps (set_coordinates c.latitude c.longitude s.store)
        (record s { locating = s.locating - 1 }) h
  settle_locate-Keeps (err e) s h = cc (h)

  -- The cards that the answer brings, or those of the old state.
  settle_load-Shows :
      (f : Floats) (i : ℕ) (r : Result (List SiteSummaryDto))
      (found : Option (ListSitesInput × List ListSitesInput)) (s : SitesHook)
      → take_out i s.pending ≡ found
      → AreAnswered found
      → (settle_load f r found s).state ≡ success cards
      → (s.state ≡ success cards) ⊎ Shows f s (load_settled i r) cards
  unfolding settle_load settled_state
  settle_load-Shows f i r none s e answered h = inl h
  settle_load-Shows f i (ok sites) (some (query, rest)) s e (here, others) h =
      inr (cc (h), (query, rest, e, here))
  settle_load-Shows f i (err x) (some (query, rest)) s e answered h = cc (h)

  step-Shows :
      (f : Floats) (s : SitesHook) (e : Event)
      → AreQueries s
      → (step f s e).state ≡ success cards
      → (s.state ≡ success cards) ⊎ Shows f s e cards
  unfolding step
  step-Shows f s (locate_settled r) queries h =
      inl (Keeps-if (ltb 0 s.locating) s (settle_locate r s) s (settle_locate-Keeps r s) (λ e. e) h)
  step-Shows f s (load_settled i r) queries h =
      settle_load-Shows f i r (take_out i s.pending) s refl
        (take_out-AreAnswered i s.pending queries) h
  step-Shows f s tap_retry queries h =
      inl (Keeps-if (can_retry s.state) s (retry s) s (retry-Keeps s) (λ e. e) h)
  step-Shows f s (city_selected code name) queries h = inl (adopt-Keeps _ s h)
  step-Shows f s (located_elsewhere c) queries h = inl (adopt-Keeps _ s h)

  run-Shows :
      (f : Floats) (s : SitesHook) (es : List Event)
      → AreQueries s
      → (run f s es).state ≡ success cards
      → (s.state ≡ success cards) ⊎ ShownBy f s es cards
  unfolding run
  run-Shows f s [] queries h = inl h
  run-Shows f s (e ∷ es) queries h =
      elim (run-Shows f (step f s e) es (step-AreQueries f s e queries) h) [
        | inr later ↦ inr (inr later)
        | inl after ↦ elim (step-Shows f s e queries after) [
          | inl before ↦ inl before
          | inr now ↦ inr (inl now)
        ]
      ]

start_loading : (store : LocationStore) → (start store).state ≡ loading
unfolding start load_effect load
start_loading store = refl

-- Cards that the hook shows after some events are those of the sites that one of the events
-- brings, the answer to an open request, and this request asks for the sites within 5000 metres of
-- known coordinates; nothing is shown that no such answer has brought.
pub sites_run-success :
    (f : Floats) (store : LocationStore) (es : List Event) (cards : List SiteCardView)
    → (run f (start store) es).state ≡ success cards
    → ShownBy f (start store) es cards
sites_run-success f store es cards h =
    elim (run-Shows cards f (start store) es (start-AreQueries store) h) [
      | inl first ↦ cc (start_loading store, first)
      | inr shown ↦ shown
    ]
