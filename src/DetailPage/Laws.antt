-- ===== src/DetailPage/Laws.antt =====
-- The actions of the page follow from the status of the server's order.
use smart_parcel_locker.Prelude.{
  ap, ◌∙◌, ◌+◌, ◌++◌, Text, Bool, true, false, any, Bool-cases, Option, none, some, List, [], ◌∷◌,
  Result, ok, err, ◌≡◌, ◌≢◌, refl, ◌⊎◌, inl, inr, arith, Memᴰ,
}
use smart_parcel_locker.Order.{
  OrderAction, pay, cancel, open_deposit_door, open_pickup_door, settle_overdue, contact_support,
  available_order_actions,
}
use smart_parcel_locker.Order.Actions.{Allows, Lists, listed_sound}
use smart_parcel_locker.OrderClient.{OrderDto}
use smart_parcel_locker.OrderHook.{Shown, skeleton, failure, content, shown, order_action_route}
use smart_parcel_locker.DetailPage.{
  DetailPage, Event, reload_settled, own_reload_settled, tap_retry, tick, tap, cancel_settled,
  nothing, step, start, run, can_tap, lists, same_action, on_action, visit,
}

eq_of_same_action : (a b : OrderAction) → same_action a b ≡ true → a ≡ b
unfolding same_action
eq_of_same_action a b h = ground arith

mem_of_any : (a : OrderAction) (l : List OrderAction) → any (same_action a) l ≡ true → Memᴰ a l
mem_of_any a [] h = cc
mem_of_any a (x ∷ l) h = elim (Bool-cases (same_action a x)) [
  | inl here ↦ Memᴰ.head (eq_of_same_action a x here)
  | inr other ↦ Memᴰ.tail (mem_of_any a l (rw other at h))
]

lists_of : (r : Result (List OrderAction)) (a : OrderAction) → lists r a ≡ true → Lists r a
unfolding lists
lists_of (ok actions) a h = mem_of_any a actions h
lists_of (err e) a h = cc

-- The order on the screen has a status that allows the action.
abbrev pub IsOffered : Shown → OrderAction → Type 0
IsOffered sh a = (order : OrderDto) × (sh ≡ content order) × Allows order.status a

IsOffered-of_can_tap :
    (sh : Shown) (cancelling : Bool) (a : OrderAction)
    → can_tap sh cancelling a ≡ true
    → IsOffered sh a
unfolding can_tap
IsOffered-of_can_tap skeleton cancelling a h = cc
IsOffered-of_can_tap failure cancelling a h = cc
IsOffered-of_can_tap (content order) cancelling a h = (
  order,
  refl,
  listed_sound order.status a (lists_of (available_order_actions order.status) a (ground arith)),
)

idle_of_can_tap :
    (sh : Shown) (cancelling : Bool) → can_tap sh cancelling cancel ≡ true → cancelling ≡ false
unfolding can_tap
idle_of_can_tap skeleton cancelling h = cc
idle_of_can_tap failure cancelling h = cc
idle_of_can_tap (content order) cancelling h = ground arith

step-tap_cancel :
    (s : DetailPage)
    → ((step s (tap cancel)).cancellations ≡ s.cancellations)
      ⊎ ((can_tap (shown s.hook) s.cancelling cancel ≡ true)
          × ((step s (tap cancel)).cancellations ≡ s.cancellations + 1))
unfolding step
step-tap_cancel s = ground arith

cancellations-visit :
    (r : Result (Option Text)) (s : DetailPage) → (visit r s).cancellations ≡ s.cancellations
unfolding visit
cancellations-visit (ok (some route)) s = refl
cancellations-visit (ok none) s = refl
cancellations-visit (err e) s = refl

step-cancellations :
    (s : DetailPage) (e : Event)
    → ((step s e).cancellations ≡ s.cancellations)
      ⊎ ((e ≡ tap cancel)
          × IsOffered (shown s.hook) cancel
          × (s.cancelling ≡ false)
          × ((step s e).cancellations ≡ s.cancellations + 1))
unfolding step
step-cancellations s (reload_settled r) = ground arith
step-cancellations s (own_reload_settled r) = ground arith
step-cancellations s tap_retry = ground arith
step-cancellations s tick = ground arith
step-cancellations s (tap cancel) = elim (step-tap_cancel s) [
  | inl same ↦ inl same
  | inr (can, more) ↦ inr (
    refl,
    IsOffered-of_can_tap (shown s.hook) s.cancelling cancel can,
    idle_of_can_tap (shown s.hook) s.cancelling can,
    more,
  )
]
step-cancellations s (tap action) = ground arith
step-cancellations s (cancel_settled (ok o)) = ground arith
step-cancellations s (cancel_settled (err f)) = ground arith

-- `cancelling` is set exactly while the handler waits.
abbrev pub Busy : DetailPage → Type 0
Busy s =
    ((s.cancelling ≡ true) × (s.waiting ≢ nothing))
    ⊎ ((s.cancelling ≡ false) × (s.waiting ≡ nothing))

step-Busy : (s : DetailPage) (e : Event) → Busy s → Busy (step s e)
unfolding step
step-Busy s (reload_settled r) h = ground arith
step-Busy s (own_reload_settled r) h = ground arith
step-Busy s tap_retry h = ground arith
step-Busy s tick h = ground arith
step-Busy s (tap cancel) h = ground arith
step-Busy s (tap contact_support) h = ground arith
step-Busy s (tap action) h = ground arith
step-Busy s (cancel_settled (ok o)) h = ground arith
step-Busy s (cancel_settled (err f)) h = ground arith

-- A page that an action leads to.
abbrev pub Visits : DetailPage → DetailPage → OrderAction → Type 0
Visits s s' a =
    (route : Text) × (order_action_route a s.order_id ≡ ok (some route))
    × (s'.visited ≡ s.visited ++ route ∷ [])

visited-visit :
    (r : Result (Option Text)) (s : DetailPage)
    → ((visit r s).visited ≡ s.visited)
      ⊎ ((route : Text) × (r ≡ ok (some route)) × ((visit r s).visited ≡ s.visited ++ route ∷ []))
unfolding visit
visited-visit (ok (some route)) s = inr (route, refl, refl)
visited-visit (ok none) s = inl refl
visited-visit (err e) s = inl refl

visited-on_action :
    (a : OrderAction) (s : DetailPage)
    → ((on_action a s).visited ≡ s.visited) ⊎ Visits s (on_action a s) a
unfolding on_action
visited-on_action contact_support s = inl refl
visited-on_action cancel s = inl refl
visited-on_action pay s = visited-visit (order_action_route pay s.order_id) s
visited-on_action open_deposit_door s =
    visited-visit (order_action_route open_deposit_door s.order_id) s
visited-on_action open_pickup_door s =
    visited-visit (order_action_route open_pickup_door s.order_id) s
visited-on_action settle_overdue s = visited-visit (order_action_route settle_overdue s.order_id) s

tap_of_can :
    (s : DetailPage) (a : OrderAction)
    → can_tap (shown s.hook) s.cancelling a ≡ true
    → step s (tap a) ≡ on_action a s
unfolding step
tap_of_can s a h = rw h

tap_of_cannot :
    (s : DetailPage) (a : OrderAction)
    → can_tap (shown s.hook) s.cancelling a ≡ false
    → step s (tap a) ≡ s
unfolding step
tap_of_cannot s a h = rw h

visited : {s t : DetailPage} → s ≡ t → s.visited ≡ t.visited
visited p = ap (λ (s : DetailPage). s.visited) p

visited-tap :
    (s : DetailPage) (a : OrderAction)
    → ((step s (tap a)).visited ≡ s.visited)
      ⊎ (IsOffered (shown s.hook) a × Visits s (step s (tap a)) a)
visited-tap s a = elim (Bool-cases (can_tap (shown s.hook) s.cancelling a)) [
  | inl can ↦ elim (visited-on_action a s) [
    | inl same ↦ inl (visited (tap_of_can s a can) ∙ same)
    | inr (route, p, q) ↦ inr (
      IsOffered-of_can_tap (shown s.hook) s.cancelling a can,
      (route, p, visited (tap_of_can s a can) ∙ q),
    )
  ]
  | inr cannot ↦ inl (visited (tap_of_cannot s a cannot))
]

-- A step leads to no page, or it is a tap on an action that the status of the order on the screen
-- allows, and leads to the page of that action for the order of this page.
pub step-visited :
    (s : DetailPage) (e : Event)
    → ((step s e).visited ≡ s.visited)
      ⊎ ((a : OrderAction) × (e ≡ tap a) × IsOffered (shown s.hook) a × Visits s (step s e) a)
unfolding step
step-visited s (reload_settled r) = inl (ground arith)
step-visited s (own_reload_settled r) = inl (ground arith)
step-visited s tap_retry = inl (ground arith)
step-visited s tick = inl (ground arith)
step-visited s (tap a) = elim (visited-tap s a) [
  | inl same ↦ inl same
  | inr (offered, v) ↦ inr (a, refl, offered, v)
]
step-visited s (cancel_settled (ok o)) = inl (ground arith)
step-visited s (cancel_settled (err f)) = inl (ground arith)

run-Busy : (s : DetailPage) (es : List Event) → Busy s → Busy (run s es)
unfolding run
run-Busy s [] h = h
run-Busy s (e ∷ es) h = run-Busy (step s e) es (step-Busy s e h)

start-Busy : (order_id : Text) → Busy (start order_id)
unfolding start
start-Busy order_id = ground arith

-- Whatever happens on the page, `cancelling` is set exactly while the handler waits, for the one
-- cancellation or for the reload behind it.
pub detail_run-Busy : (order_id : Text) (es : List Event) → Busy (run (start order_id) es)
detail_run-Busy order_id es = run-Busy (start order_id) es (start-Busy order_id)

-- A step sends no cancellation, or it is a tap on its button, beside an order whose status allows
-- it, while no cancellation, nor the reload behind one, is open.
abbrev pub Sends : DetailPage → Event → Type 0
Sends s e =
    ((step s e).cancellations ≡ s.cancellations)
    ⊎ ((e ≡ tap cancel)
        × IsOffered (shown s.hook) cancel
        × (s.waiting ≡ nothing)
        × ((step s e).cancellations ≡ s.cancellations + 1))

none_open : (s : DetailPage) → Busy s → s.cancelling ≡ false → s.waiting ≡ nothing
none_open s h idle = ground arith

-- Whatever has happened on the page, a step sends no cancellation, or it is a tap on the button for
-- it, beside an order on the screen whose status allows it and while no cancellation, nor the reload
-- behind one, is open, and sends one.
pub detail_run-cancellations :
    (order_id : Text) (es : List Event) (e : Event) → Sends (run (start order_id) es) e
detail_run-cancellations order_id es e =
    let s = run (start order_id) es in
    elim (step-cancellations s e) [
      | inl same ↦ inl same
      | inr (tapped, offered, idle, more) ↦
          inr (tapped, offered, none_open s (detail_run-Busy order_id es) idle, more)
    ]
