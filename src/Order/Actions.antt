-- ===== src/Order/Actions.antt =====
-- Which actions a status offers.
use smart_parcel_locker.Prelude.{
  text_eq, All, Failure, subst, >>=-eq-ok, Text, List, [], ◌∷◌, ◌++◌, ok, err, type_error, ◌≡◌,
  refl, ◌↔◌, Memᴰ, arith, sym, Result, none, some, text, inl, inr,
}
use smart_parcel_locker.Order.Cast.{statuses, prototype_names, cast_status, cast_status-cases}
use smart_parcel_locker.Order.{
  OrderStatus, unspecified, pending_payment, paid, awaiting_deposit, in_storage, awaiting_pickup,
  overdue, completed, cancelled, inherited, foreign, OrderAction, pay, cancel, open_deposit_door,
  open_pickup_door, settle_overdue, contact_support, available_order_actions, to_order_status_view,
  spread, status_actions,
}

-- The offer of each action, by the statuses that call for it.
pub data Allows : OrderStatus → OrderAction → Type 0 where
  to_pay : Allows pending_payment pay
  to_cancel : Allows pending_payment cancel
  to_deposit : Allows awaiting_deposit open_deposit_door
  to_take : Allows in_storage open_pickup_door
  to_pick_up : Allows awaiting_pickup open_pickup_door
  to_settle : Allows overdue settle_overdue
  to_ask : {s : OrderStatus} → Allows s contact_support

-- An action is listed.
abbrev pub Lists : Result (List OrderAction) → OrderAction → Type 0
Lists (ok actions) a = Memᴰ a actions
Lists (err e) a = ⊥

support_only : {s : OrderStatus} {a : OrderAction} → Memᴰ a (contact_support ∷ []) → Allows s a
support_only (Memᴰ.head e) = rw e to_ask
support_only (Memᴰ.tail m) = elim m [ ]

one_and_support :
    {s : OrderStatus} {a b : OrderAction}
    → Allows s b
    → Memᴰ a (b ∷ contact_support ∷ [])
    → Allows s a
one_and_support h (Memᴰ.head e) = rw e h
one_and_support h (Memᴰ.tail m) = support_only m

pub listed_sound :
    (s : OrderStatus) (a : OrderAction) → Lists (available_order_actions s) a → Allows s a
unfolding available_order_actions
listed_sound unspecified a m = support_only m
listed_sound pending_payment a (Memᴰ.head e) = rw e to_pay
listed_sound pending_payment a (Memᴰ.tail m) = one_and_support to_cancel m
listed_sound paid a m = support_only m
listed_sound awaiting_deposit a m = one_and_support to_deposit m
listed_sound in_storage a m = one_and_support to_take m
listed_sound awaiting_pickup a m = one_and_support to_pick_up m
listed_sound overdue a m = one_and_support to_settle m
listed_sound completed a m = support_only m
listed_sound cancelled a m = support_only m
listed_sound (inherited t) a m = elim m [ ]
listed_sound (foreign t) a m = support_only m

support_last : (xs : List OrderAction) → Memᴰ contact_support (xs ++ contact_support ∷ [])
support_last [] = Memᴰ.head refl
support_last (x ∷ xs) = Memᴰ.tail (support_last xs)

support_of_ok :
    (xs actions : List OrderAction)
    → ok (xs ++ contact_support ∷ []) ≡ ok actions
    → Memᴰ contact_support actions
support_of_ok xs actions q = subst (λ r. Lists r contact_support) q (support_last xs)

support_listed :
    (s : OrderStatus) (actions : List OrderAction)
    → available_order_actions s ≡ ok actions
    → Memᴰ contact_support actions
unfolding available_order_actions
support_listed s actions e =
    let (xs, p, q) = >>=-eq-ok (spread (status_actions s)) _ e in support_of_ok xs actions q

listed_complete :
    {s : OrderStatus} {a : OrderAction} (actions : List OrderAction)
    → available_order_actions s ≡ ok actions
    → Allows s a
    → Memᴰ a actions
unfolding available_order_actions
listed_complete actions e to_pay = subst (λ r. Lists r pay) e (Memᴰ.head refl)
listed_complete actions e to_cancel = subst (λ r. Lists r cancel) e (Memᴰ.tail (Memᴰ.head refl))
listed_complete actions e to_deposit = subst (λ r. Lists r open_deposit_door) e (Memᴰ.head refl)
listed_complete actions e to_take = subst (λ r. Lists r open_pickup_door) e (Memᴰ.head refl)
listed_complete actions e to_pick_up = subst (λ r. Lists r open_pickup_door) e (Memᴰ.head refl)
listed_complete actions e to_settle = subst (λ r. Lists r settle_overdue) e (Memᴰ.head refl)
listed_complete {s} actions e to_ask = support_listed s actions e

-- Whenever a list of actions is offered, an action is in it exactly when the status allows it.
pub available_order_actions_iff :
    (s : OrderStatus) (a : OrderAction) (actions : List OrderAction)
    → available_order_actions s ≡ ok actions
    → Memᴰ a actions ↔ Allows s a
available_order_actions_iff s a actions e =
    (λ m. listed_sound s a (subst (λ r. Lists r a) (sym e) m), listed_complete actions e)

-- The names of the properties that every object has from `Object.prototype`.
abbrev pub inherited_names : List Text
inherited_names =
    text "constructor"
    ∷ text "toString"
    ∷ text "toLocaleString"
    ∷ text "valueOf"
    ∷ text "hasOwnProperty"
    ∷ text "isPrototypeOf"
    ∷ text "propertyIsEnumerable"
    ∷ text "__proto__"
    ∷ text "__defineGetter__"
    ∷ text "__defineSetter__"
    ∷ text "__lookupGetter__"
    ∷ text "__lookupSetter__"
    ∷ []

-- The list is made for a status, and its view has a label.
abbrev IsShown : OrderStatus → Type 0
IsShown s =
    ((actions : List OrderAction) × (available_order_actions s ≡ ok actions))
    × ((label : Text) × ((to_order_status_view s).label ≡ some label))

statuses-IsShown : All IsShown statuses
unfolding available_order_actions to_order_status_view
statuses-IsShown = (
  ((_, refl), (_, refl)),
  (
    ((_, refl), (_, refl)),
    (
      ((_, refl), (_, refl)),
      (
        ((_, refl), (_, refl)),
        (
          ((_, refl), (_, refl)),
          (
            ((_, refl), (_, refl)),
            (((_, refl), (_, refl)), (((_, refl), (_, refl)), (((_, refl), (_, refl)), tt))),
          ),
        ),
      ),
    ),
  ),
)

-- Why no list is made for a string of the server, and what its view lacks.
abbrev pub Fails : Text → Failure → Type 0
Fails t e =
    (e ≡ type_error)
    × Memᴰ t inherited_names
    × ((to_order_status_view (cast_status t)).label ≡ none)

inherited-Fails :
    (s : OrderStatus) (t : Text) (e : Failure)
    → s ≡ inherited t
    → available_order_actions s ≡ err e
    → (e ≡ type_error) × ((to_order_status_view s).label ≡ none)
unfolding available_order_actions to_order_status_view
inherited-Fails (inherited u) t e p h = (ground arith, refl)
inherited-Fails _ t e p h = cc (p)

foreign_made : (t : Text) → available_order_actions (foreign t) ≡ ok (contact_support ∷ [])
unfolding available_order_actions
foreign_made t = refl

Fails-of_err :
    (t : Text) (e : Failure) → available_order_actions (cast_status t) ≡ err e → Fails t e
unfolding prototype_names
Fails-of_err t e h = elim (cast_status-cases IsShown t statuses-IsShown) [
  | inl ((actions, p), _) ↦ cc (p, h)
  | inr (inl (named, p)) ↦ let (q, r) = inherited-Fails (cast_status t) t e p h in (q, named, r)
  | inr (inr p) ↦ cc (foreign_made t, rw p at h)
]

err_of_inherited :
    All (λ t. available_order_actions (cast_status t) ≡ err type_error) inherited_names
unfolding available_order_actions cast_status text text_eq
err_of_inherited = (
  refl,
  (refl, (refl, (refl, (refl, (refl, (refl, (refl, (refl, (refl, (refl, (refl, tt))))))))))),
)

at_Memᴰ : (P : Text → Type 0) (t : Text) (names : List Text) → All P names → Memᴰ t names → P t
at_Memᴰ P t [] h m = elim m [ ]
at_Memᴰ P t (name ∷ rest) h (Memᴰ.head e) = subst P (sym e) h.0
at_Memᴰ P t (name ∷ rest) h (Memᴰ.tail m) = at_Memᴰ P t rest h.1 m

-- For a status of the server, whatever string it is, the list is not made exactly where it is the
-- name of a property that every object inherits: a `TypeError` is thrown, and the view of such a
-- status has no label.
pub available_order_actions-eq-err_iff :
    (t : Text) (e : Failure) → (available_order_actions (cast_status t) ≡ err e) ↔ Fails t e
available_order_actions-eq-err_iff t e = (
  Fails-of_err t e,
  λ h. rw h.0 (
      at_Memᴰ (λ x. available_order_actions (cast_status x) ≡ err type_error) t inherited_names
        err_of_inherited h.1),
)
