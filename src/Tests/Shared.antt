-- ===== src/Tests/Shared.antt =====
-- The stores and the creation of an order, over a storage that is a function from keys to values.
use smart_parcel_locker.Prelude.{
  Text, text, text_eq, text_eq_iff, text_eq_refl, Bool-cases, none, List, [], ◌∷◌, ok, err,
  plain_error, if◌then◌else◌, ◌≡◌, ◌≢◌, refl, inl, inr,
}
use smart_parcel_locker.Order.{pending_payment}
use smart_parcel_locker.OrderClient.{OrderDto}
use smart_parcel_locker.Stores.Storage.{Storage, TaroStorage, taro_storage}
use smart_parcel_locker.Stores.Session.{SessionStore}
use smart_parcel_locker.Stores.ActiveOrder.{ActiveOrderStore}
use smart_parcel_locker.ConfirmPage
use smart_parcel_locker.ConfirmPage.Laws.{confirm_run-order, IsActive}
use smart_parcel_locker.Tests.Sample.{order_with}

abbrev pub Values : Type 0
Values = Text → Text

abbrev get_value : Values → Text → Text
get_value s key = s key

abbrev set_value : Values → Text → Text → Values
set_value s key value = λ other. if text_eq key other then value else s other

pub get_value-set_value :
    (s : Values) (key value : Text) → get_value (set_value s key value) key ≡ value
get_value-set_value s key value = rw (text_eq_refl key)

pub get_value-set_value_ne :
    (s : Values) (key other value : Text)
    → key ≢ other
    → get_value (set_value s key value) other ≡ get_value s other
get_value-set_value_ne s key other value h = elim (Bool-cases (text_eq key other)) [
  | inl same ↦ absurd (h ((text_eq_iff key other).0 same))
  | inr differs ↦ rw differs
]

abbrev taro : TaroStorage Values
taro = record {
  get_storage_sync = get_value;
  set_storage_sync = set_value;
  remove_storage_sync = λ s key. set_value s key [];
  get-set = get_value-set_value;
  get-set_ne = get_value-set_value_ne;
  get-remove = λ s key. get_value-set_value s key [];
  get-remove_ne = λ s key other h. get_value-set_value_ne s key other [] h;
}

abbrev pub storage : Storage Values
storage = taro_storage taro

abbrev no_values : Values
no_values key = []

abbrev session : SessionStore Values
session = record { user_id = none; stored = no_values }

abbrev pub shared : ActiveOrderStore Values
shared = record { active_order_id = none; stored = no_values }

abbrev created : OrderDto
created = order_with pending_payment

-- The first request fails, and the user tries again while another page clears the active order.
abbrev creation : List ConfirmPage.Event
creation =
    ConfirmPage.Event.create_settled (err (plain_error (text "no reply")))
    ∷ ConfirmPage.Event.tap_retry
    ∷ ConfirmPage.Event.active_changed none
    ∷ []

confirm_run-order_example : IsActive storage created (
    ConfirmPage.run storage
      (ConfirmPage.run storage (ConfirmPage.start storage shared) creation)
      (ConfirmPage.Event.create_settled (ok created) ∷ ConfirmPage.Event.tap_retry ∷ []))
unfolding ConfirmPage.run ConfirmPage.step ConfirmPage.start text
confirm_run-order_example =
    confirm_run-order storage shared creation (ConfirmPage.Event.tap_retry ∷ []) created refl refl
      (tt, tt)
