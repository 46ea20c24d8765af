-- ===== src/OrderHook/Routes.antt =====
-- Where the actions lead to.
use smart_parcel_locker.Prelude.{
  any, text_eq, text_eq_iff, Bool-cases, true, false, ◌>>=◌, arith, Text, text, some, List, [], ◌∷◌,
  ◌++◌, ok, >>=-eq-ok, ◌≡◌, refl, sym, Memᴰ, inl, inr,
}
use smart_parcel_locker.Prelude.Uri.{
  encode_uri_component, IsUtf16, IsUriText, encode_uri_component-IsUriText,
}
use smart_parcel_locker.Order.{
  OrderAction, pay, cancel, open_deposit_door, open_pickup_door, settle_overdue, contact_support,
}
use smart_parcel_locker.AppConfig.{pages, tab_pages}
use smart_parcel_locker.OrderHook.{order_action_route}

-- `/` and a page of the program that is not in the tab bar, with the order's id as the one parameter.
abbrev pub Leads : Text → Text → Type 0
Leads route id =
    (page : Text) × Memᴰ page pages
    × (Memᴰ page tab_pages → ⊥)
    × (route ≡ b'/' ∷ (page ++ (text "?orderId=" ++ id)))

mem_of_any : (t : Text) (l : List Text) → any (text_eq t) l ≡ true → Memᴰ t l
mem_of_any t [] h = cc
mem_of_any t (x ∷ l) h = elim (Bool-cases (text_eq t x)) [
  | inl here ↦ Memᴰ.head ((text_eq_iff t x).0 here)
  | inr other ↦ Memᴰ.tail (mem_of_any t l (rw other at h))
]

not_mem_of_any : (t : Text) (l : List Text) → any (text_eq t) l ≡ false → Memᴰ t l → ⊥
not_mem_of_any t [] h m = elim m [ ]
not_mem_of_any t (x ∷ l) h (Memᴰ.head e) = ground (arith, (text_eq_iff t x).1 e)
not_mem_of_any t (x ∷ l) h (Memᴰ.tail m) = elim (Bool-cases (text_eq t x)) [
  | inl here ↦ cc (rw here at h)
  | inr other ↦ not_mem_of_any t l (rw other at h) m
]

route_eq : (a b : Text) → ok (some a) ≡ ok (some b) → a ≡ b
route_eq a b h = ground arith

to_page :
    (page : Text) (order_id route : Text)
    → any (text_eq page) pages ≡ true
    → any (text_eq page) tab_pages ≡ false
    → (encode_uri_component order_id >>= λ id.
        ok (some (b'/' ∷ (page ++ (text "?orderId=" ++ id)))))
      ≡ ok (some route)
    → (id : Text) × (encode_uri_component order_id ≡ ok id) × Leads route id
to_page page order_id route m t h =
    let (id, p, q) = >>=-eq-ok (encode_uri_component order_id) _ h in
    (
      id,
      p,
      (page, mem_of_any page pages m, not_mem_of_any page tab_pages t, sym (route_eq _ route q)),
    )

leads :
    (a : OrderAction) (order_id route : Text)
    → order_action_route a order_id ≡ ok (some route)
    → (id : Text) × (encode_uri_component order_id ≡ ok id) × Leads route id
unfolding order_action_route pages tab_pages text text_eq
leads pay order_id route h = to_page (text "pages/payment/index") order_id route refl refl h
leads open_deposit_door order_id route h =
    to_page (text "pages/store/index") order_id route refl refl h
leads open_pickup_door order_id route h =
    to_page (text "pages/pickup/index") order_id route refl refl h
leads settle_overdue order_id route h =
    to_page (text "pages/overdue/index") order_id route refl refl h
leads cancel order_id route h =
    let (id, p, q) = >>=-eq-ok (encode_uri_component order_id) _ h in cc (q)
leads contact_support order_id route h =
    let (id, p, q) = >>=-eq-ok (encode_uri_component order_id) _ h in cc (q)

-- For an id of UTF-16 code units, the route of an action, if it has one, is a page that the program
-- registers and that is not in the tab bar, with the encoded id of the order as its one parameter, in letters, digits, the marks
-- that need no escape, and `%`.
pub order_action_route-Leads :
    (a : OrderAction) (order_id route : Text)
    → IsUtf16 order_id
    → order_action_route a order_id ≡ ok (some route)
    → (id : Text) × (encode_uri_component order_id ≡ ok id) × IsUriText id × Leads route id
order_action_route-Leads a order_id route h e =
    let (id, p, l) = leads a order_id route e in
    (id, p, encode_uri_component-IsUriText order_id id h p, l)
