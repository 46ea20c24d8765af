-- ===== src/HomePage/ActiveOrder.antt =====
-- The card of the active order never shows an order that has ended, unless loading has failed.
use smart_parcel_locker.Prelude.{
  Text, truthy, text_eq, text_eq_iff, Bool, true, false, Bool-cases, Option, none, some, ◌or◌, List,
  [], ◌∷◌, Result, ok, err, ◌≡◌, refl, inl, inr, if◌then◌else◌, ltb,
}
use smart_parcel_locker.Prelude.Floats.{Floats}
use smart_parcel_locker.OrderClient.{OrderDto}
use smart_parcel_locker.OrderHook.{OrderHook, LoadState, initial_hook, reload, settle_reload}
use smart_parcel_locker.DetailPage.{is_terminal}
use smart_parcel_locker.Stores.Storage.{Storage}
use smart_parcel_locker.Stores.Location.{LocationStore}
use smart_parcel_locker.Stores.ActiveOrder.{
  ActiveOrderStore, hydrate, set_active_order, clear_active_order,
}
use smart_parcel_locker.Components.{StatusPill, status_pill}
use smart_parcel_locker.HomePage.{
  HomePage, Event, sites_event, typed, order_settled, order_created, follow, adopt_active,
  clear_if_ended, settle_order, step, start, run, order_card, render_active_order, card_at,
}

-- An order that was loaded last and has ended is not the active one.
abbrev pub Current : Option Text → LoadState → Option OrderDto → Type 0
Current active load_state order =
    load_state ≡ LoadState.success
    → (o : OrderDto) → order ≡ some o
    → is_terminal o.status ≡ true
    → truthy (active or []) ≡ false

reload-Current :
    (id : Option Text) (h : OrderHook)
    → Current id (reload (id or []) h).load_state (reload (id or []) h).order
unfolding reload
reload-Current id h loaded o e ended = elim (Bool-cases (truthy (id or []))) [
  | inl named ↦ cc (rw named at loaded)
  | inr nameless ↦ nameless
]

-- A new id: the same as before, or none, or the hook is loading.
follow-Current :
    (old new : Option Text) (h : OrderHook)
    → Current old h.load_state h.order
    → Current new (follow old new h).load_state (follow old new h).order
unfolding follow
follow-Current old new h kept = elim (Bool-cases (text_eq (old or []) (new or []))) [
  | inl same ↦ rw (same, ← (text_eq_iff (old or []) (new or [])).0 same) kept
  | inr other ↦ rw other (reload-Current new h)
]

module _ {S : Type 0} where
  abbrev IsCurrent : HomePage S → Type 0
  IsCurrent s = Current s.active.active_order_id s.hook.load_state s.hook.order

  adopt_active-IsCurrent :
      (storage : Storage S) (new : ActiveOrderStore S) (s : HomePage S)
      → IsCurrent s
      → IsCurrent (adopt_active storage new s)
  unfolding adopt_active
  adopt_active-IsCurrent storage new s h =
      follow-Current s.active.active_order_id new.active_order_id s.hook h

  module _ (storage : Storage S) where
    -- With no active order, everything is current.
    cleared-IsCurrent :
        (s : HomePage S) → IsCurrent (adopt_active storage (clear_active_order storage s.active) s)
    unfolding adopt_active clear_active_order
    cleared-IsCurrent s loaded o e ended = refl

    loaded-IsCurrent :
        (order : OrderDto) (s : HomePage S)
        → s.hook.order ≡ some order
        → IsCurrent (clear_if_ended storage order s)
    unfolding clear_if_ended
    loaded-IsCurrent order s e = elim (Bool-cases (is_terminal order.status)) [
      | inl ended ↦ rw ended (cleared-IsCurrent s)
      | inr open_order ↦ rw open_order (λ loaded o e' ended. cc (e, e', ended, open_order))
    ]

    settle_order-IsCurrent :
        (r : Result OrderDto) (s : HomePage S) → IsCurrent (settle_order storage r s)
    unfolding settle_order settle_reload
    settle_order-IsCurrent (ok order) s = loaded-IsCurrent order _ refl
    settle_order-IsCurrent (err e) s = λ loaded. cc (loaded)

    IsCurrent-if :
        (b : Bool) (s t : HomePage S) → IsCurrent s → IsCurrent t → IsCurrent (if b then s else t)
    IsCurrent-if true s t p q = p
    IsCurrent-if false s t p q = q

    step-IsCurrent :
        (f : Floats) (s : HomePage S) (e : Event) → IsCurrent s → IsCurrent (step storage f s e)
    unfolding step
    step-IsCurrent f s (sites_event e) h = h
    step-IsCurrent f s (typed detail target) h = IsCurrent-if _ _ s h h
    step-IsCurrent f s (order_settled r) h =
        IsCurrent-if (ltb 0 s.hook.pending) (settle_order storage r s) s
          (settle_order-IsCurrent r s) h
    step-IsCurrent f s (order_created id) h =
        adopt_active-IsCurrent storage (set_active_order storage id s.active) s h

    run-IsCurrent :
        (f : Floats) (s : HomePage S) (es : List Event)
        → IsCurrent s
        → IsCurrent (run storage f s es)
    unfolding run
    run-IsCurrent f s [] h = h
    run-IsCurrent f s (e ∷ es) h = run-IsCurrent f (step storage f s e) es (step-IsCurrent f s e h)

    start-IsCurrent :
        (location : LocationStore) (active : ActiveOrderStore S)
        → IsCurrent (start storage location active)
    unfolding start adopt_active initial_hook
    start-IsCurrent location active =
        follow-Current active.active_order_id (hydrate storage active).active_order_id
          (reload (active.active_order_id or []) initial_hook)
          (reload-Current active.active_order_id initial_hook)

-- The card shows an order only with an active order, and where it has been loaded.
card_shown :
    (active : Option Text) (load_state : LoadState) (order : Option OrderDto) (a b c : Text)
    (pill : StatusPill)
    → render_active_order active load_state order ≡ order_card a b pill c
    → (truthy (active or []) ≡ true)
      × ((o : OrderDto) × (order ≡ some o) × (pill ≡ status_pill o.status))
unfolding render_active_order
card_shown active load_state order a b c pill h = elim (Bool-cases (truthy (active or []))) [
  | inl named ↦ (named, card_order load_state order (rw named at h))
  | inr nameless ↦ cc (rw nameless at h)
]
  where
    card_order :
        (load_state : LoadState) (order : Option OrderDto)
        → card_at load_state order ≡ order_card a b pill c
        → (o : OrderDto) × (order ≡ some o) × (pill ≡ status_pill o.status)
    card_order LoadState.loading order e = cc (e)
    card_order LoadState.success none e = cc (e)
    card_order LoadState.error none e = cc (e)
    card_order LoadState.success (some o) e = (o, refl, cc (e))
    card_order LoadState.error (some o) e = (o, refl, cc (e))

-- In every run from the start, where the first page shows a card of the active order and the last
-- request for it has not failed, its pill is that of the order that was loaded last, which has
-- neither been completed nor cancelled.
pub home_run-card :
    {S : Type 0} (storage : Storage S) (f : Floats) (location : LocationStore)
    (active : ActiveOrderStore S) (es : List Event) (label title hint : Text) (pill : StatusPill)
    → (render_active_order
        (run storage f (start storage location active) es).active.active_order_id
        (run storage f (start storage location active) es).hook.load_state
        (run storage f (start storage location active) es).hook.order)
      ≡ order_card label title pill hint
    → (run storage f (start storage location active) es).hook.load_state ≡ LoadState.success
    → (o : OrderDto) × ((run storage f (start storage location active) es).hook.order ≡ some o)
      × (pill ≡ status_pill o.status)
      × (is_terminal o.status ≡ false)
home_run-card storage f location active es label title hint pill h loaded =
    let s = run storage f (start storage location active) es in
    let (named, (o, e, p)) =
      card_shown s.active.active_order_id s.hook.load_state s.hook.order label title hint pill h in
    (
      o,
      e,
      p,
      elim (Bool-cases (is_terminal o.status)) [
        | inl ended ↦ cc (
          run-IsCurrent storage f (start storage location active) es
              (start-IsCurrent storage location active) loaded o e ended,
          named,
        )
        | inr open_order ↦ open_order
      ],
    )
