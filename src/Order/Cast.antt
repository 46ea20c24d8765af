-- ===== src/Order/Cast.antt =====
-- The casts `as OrderStatus`: a string of the server becomes a status as it is, with no check.
use smart_parcel_locker.Prelude.{
  subst, Memᴰ, Bool-cases, ◌⊎◌, Text, text, text_eq, text_eq_iff, Option, some, none, List, [], ◌∷◌,
  map, any, All, ◌or◌, ◌≡◌, refl, arith, if◌then◌else◌, Option-cases, inl, inr, Bool, true, false,
}
use smart_parcel_locker.Order.{
  OrderStatus, unspecified, pending_payment, paid, awaiting_deposit, in_storage, awaiting_pickup,
  overdue, completed, cancelled, inherited, foreign,
}

-- The string that a status is.
unfoldable pub status_text : OrderStatus → Text
status_text unspecified = text "ORDER_STATUS_UNSPECIFIED"
status_text pending_payment = text "ORDER_STATUS_PENDING_PAYMENT"
status_text paid = text "ORDER_STATUS_PAID"
status_text awaiting_deposit = text "ORDER_STATUS_AWAITING_DEPOSIT"
status_text in_storage = text "ORDER_STATUS_IN_STORAGE"
status_text awaiting_pickup = text "ORDER_STATUS_AWAITING_PICKUP"
status_text overdue = text "ORDER_STATUS_OVERDUE"
status_text completed = text "ORDER_STATUS_COMPLETED"
status_text cancelled = text "ORDER_STATUS_CANCELLED"
status_text (inherited t) = t
status_text (foreign t) = t

abbrev pub statuses : List OrderStatus
statuses =
    unspecified ∷ pending_payment ∷ paid ∷ awaiting_deposit ∷ in_storage ∷ awaiting_pickup ∷ overdue
    ∷ completed ∷ cancelled ∷ []

-- The properties of `Object.prototype`.
unfoldable pub prototype_names : List Text
prototype_names = map text (
    "constructor" ∷ "toString" ∷ "toLocaleString" ∷ "valueOf" ∷ "hasOwnProperty" ∷ "isPrototypeOf"
    ∷ "propertyIsEnumerable" ∷ "__proto__" ∷ "__defineGetter__" ∷ "__defineSetter__"
    ∷ "__lookupGetter__" ∷ "__lookupSetter__" ∷ [])

find_status : Text → List OrderStatus → Option OrderStatus
find_status t [] = none
find_status t (s ∷ rest) = if text_eq t (status_text s) then some s else find_status t rest

-- A string that names no status.
unlisted : Bool → Text → OrderStatus
unlisted true t = inherited t
unlisted false t = foreign t

-- `t as OrderStatus`
unfoldable pub cast_status : Text → OrderStatus
unfolding find_status unlisted status_text prototype_names
cast_status t = find_status t statuses or unlisted (any (text_eq t) prototype_names) t

status_text-unlisted : (b : Bool) (t : Text) → status_text (unlisted b t) ≡ t
unfolding status_text unlisted
status_text-unlisted true t = refl
status_text-unlisted false t = refl

find_status_sound :
    (t : Text) (l : List OrderStatus) (s : OrderStatus)
    → find_status t l ≡ some s
    → status_text s ≡ t
unfolding find_status
find_status_sound t [] s h = ground arith
find_status_sound t (x ∷ rest) s h =
    ground (arith, text_eq_iff t (status_text x), find_status_sound t rest s)

-- A cast keeps the string of the server as it is, whatever it is.
pub status_text-cast_status : (t : Text) → status_text (cast_status t) ≡ t
unfolding cast_status
status_text-cast_status t = elim (Option-cases (find_status t statuses)) [
  | inl missed ↦ rw missed (status_text-unlisted _ t)
  | inr (s, found) ↦ rw found (find_status_sound t statuses s found)
]

-- The nine statuses of the type are recognised.
pub cast_status-known : All (λ s. cast_status (status_text s) ≡ s) statuses
unfolding cast_status text text_eq
cast_status-known = (refl, (refl, (refl, (refl, (refl, (refl, (refl, (refl, (refl, tt)))))))))

found_in :
    (P : OrderStatus → Type 0) (t : Text) (l : List OrderStatus) (s : OrderStatus)
    → All P l
    → find_status t l ≡ some s
    → P s
unfolding find_status
found_in P t [] s h e = cc (e)
found_in P t (x ∷ rest) s h e = elim (Bool-cases (text_eq t (status_text x))) [
  | inl here ↦
      let seen : some x ≡ some s = rw here at e in let same : x ≡ s = cc (seen) in subst P same h.0
  | inr other ↦ found_in P t rest s h.1 (rw other at e)
]

named_of_any : (t : Text) (names : List Text) → any (text_eq t) names ≡ true → Memᴰ t names
named_of_any t [] h = cc (h)
named_of_any t (name ∷ rest) h = elim (Bool-cases (text_eq t name)) [
  | inl here ↦ Memᴰ.head ((text_eq_iff t name).0 here)
  | inr other ↦ Memᴰ.tail (named_of_any t rest (rw other at h))
]

-- A string is cast to a status of the type, to an inherited name, or to a foreign string.
pub cast_status-cases :
    (P : OrderStatus → Type 0) (t : Text)
    → All P statuses
    → P (cast_status t)
      ⊎ (Memᴰ t prototype_names × (cast_status t ≡ inherited t))
      ⊎ (cast_status t ≡ foreign t)
unfolding cast_status unlisted
cast_status-cases P t h = elim (Option-cases (find_status t statuses)) [
  | inl missed ↦ elim (Bool-cases (any (text_eq t) prototype_names)) [
    | inl named ↦ rw (missed, named) (inr (inl (named_of_any t prototype_names named, refl)))
    | inr unnamed ↦ rw (missed, unnamed) (inr (inr refl))
  ]
  | inr (s, found) ↦ rw found (inl (found_in P t statuses s h found))
]
