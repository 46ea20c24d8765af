-- ===== src/ConfirmPage/Laws.antt =====
-- One creation at a time, and the order that was created is the active one until another page
-- changes it.
use smart_parcel_locker.Prelude.{
  subst, All, ap, ◌∙◌, truthy, true, false, none, some, List, [], ◌∷◌, ok, err, ◌≡◌, refl, ◌⊎◌,
  arith, sym,
}
use smart_parcel_locker.OrderClient.{OrderDto}
use smart_parcel_locker.Stores.Storage.{Storage}
use smart_parcel_locker.Stores.ActiveOrder.{
  ActiveOrderStore, set_active_order, hydrate, started_on, hydrate-set_active_order,
}
use smart_parcel_locker.ConfirmPage.{
  content, settle_create, active_changed, created_unstored, page_shown, success, ConfirmPage, Event,
  tap_retry, create_settled, step, start, run,
}

-- The event is not one of another page.
abbrev pub IsOwn : Event → Type 0
IsOwn (active_changed id) = ⊥
IsOwn _ = Unit

module _ {S : Type 0} (storage : Storage S) where
  -- A request to create an order is open exactly while `creating` is set, and never a second one.
  abbrev pub OneCreation : ConfirmPage S → Type 0
  OneCreation s =
      ((s.creating ≡ true) × (s.in_flight ≡ 1)) ⊎ ((s.creating ≡ false) × (s.in_flight ≡ 0))

  step-OneCreation :
      (s : ConfirmPage S) (e : Event) → OneCreation s → OneCreation (step storage s e)
  unfolding step
  step-OneCreation s tap_retry h = ground arith
  step-OneCreation s (create_settled (ok o)) h = ground arith
  step-OneCreation s (create_settled (err f)) h = ground arith
  step-OneCreation s (created_unstored o) h = ground arith
  step-OneCreation s (active_changed id) h = h

  run-OneCreation :
      (s : ConfirmPage S) (es : List Event) → OneCreation s → OneCreation (run storage s es)
  unfolding run
  run-OneCreation s [] h = h
  run-OneCreation s (e ∷ es) h = run-OneCreation (step storage s e) es (step-OneCreation s e h)

  start-OneCreation : (store : ActiveOrderStore S) → OneCreation (start storage store)
  unfolding start
  start-OneCreation store = ground arith

  -- Whatever happens on the page, a request to create an order is open exactly while `creating` is
  -- set, and never a second one beside it.
  pub run-start-OneCreation :
      (store : ActiveOrderStore S) (es : List Event)
      → OneCreation (run storage (start storage store) es)
  run-start-OneCreation store es =
      run-OneCreation (start storage store) es (start-OneCreation store)

  -- The order is shown, and no request is open.
  IsDone : OrderDto → ConfirmPage S → Type 0
  IsDone order s = (s.load_state ≡ success) × (s.order ≡ some order) × (s.in_flight ≡ 0)

  step_of_IsDone :
      (order : OrderDto) (s : ConfirmPage S) (e : Event)
      → IsDone order s
      → IsOwn e
      → step storage s e ≡ s
  unfolding IsDone step
  step_of_IsDone order s tap_retry (p, q, r) own = rw (p, q) refl
  step_of_IsDone order s (create_settled reply) (p, q, r) own = rw r refl
  step_of_IsDone order s (created_unstored o) (p, q, r) own = rw r refl
  step_of_IsDone order s (active_changed id) h own = absurd own

  run_of_IsDone :
      (order : OrderDto) (s : ConfirmPage S) (es : List Event)
      → IsDone order s
      → All IsOwn es
      → run storage s es ≡ s
  unfolding run
  run_of_IsDone order s [] h own = refl
  run_of_IsDone order s (e ∷ es) h own =
      let same = step_of_IsDone order s e h own.0 in rw same (run_of_IsDone order s es h own.1)

  open_of_creating : (s : ConfirmPage S) → OneCreation s → s.creating ≡ true → s.in_flight ≡ 1
  open_of_creating s h creating = ground arith

  taken :
      (s : ConfirmPage S) (order : OrderDto)
      → s.in_flight ≡ 1
      → step storage s (create_settled (ok order)) ≡ settle_create storage (ok order) s
  unfolding step
  taken s order one = rw one refl

  settled-IsDone :
      (s : ConfirmPage S) (order : OrderDto)
      → s.in_flight ≡ 1
      → IsDone order (settle_create storage (ok order) s)
  unfolding IsDone settle_create
  settled-IsDone s order one = (refl, refl, rw one refl)

  -- The page shows the order, which is the active one, and it is the active one again when the
  -- program is started anew on the same storage.
  abbrev pub IsActive : OrderDto → ConfirmPage S → Type 0
  IsActive order s =
      (page_shown s ≡ content order)
      × (s.store.active_order_id ≡ some order.id)
      × ((hydrate storage (started_on storage s.store.stored)).active_order_id ≡ some order.id)

  settled-IsActive :
      (s : ConfirmPage S) (order : OrderDto)
      → truthy order.id ≡ true
      → IsActive order (settle_create storage (ok order) s)
  unfolding settle_create set_active_order
  settled-IsActive s order named =
      (refl, refl, (hydrate-set_active_order storage s.store none order.id named).0)

  -- Where a request to create an order is open, whatever has happened before, and it is answered by
  -- an order whose id is not empty and which can be stored, the page shows this order from then on,
  -- and it is the active order of the store, also when the program is started anew on the same
  -- storage, as long as no other page sets or clears the active order.
  pub confirm_run-order :
      (store : ActiveOrderStore S) (es later : List Event) (order : OrderDto)
      → (run storage (start storage store) es).creating ≡ true
      → truthy order.id ≡ true
      → All IsOwn later
      → IsActive order
          (run storage (run storage (start storage store) es) (create_settled (ok order) ∷ later))
  unfolding run
  confirm_run-order store es later order creating named own =
      let s = run storage (start storage store) es in
      let one = open_of_creating s (run-start-OneCreation store es) creating in
      let ends =
        run_of_IsDone order (settle_create storage (ok order) s) later (settled-IsDone s order one)
          own in
      subst (IsActive order) (sym (ap (λ t. run storage t later) (taken s order one) ∙ ends))
        (settled-IsActive s order named)
