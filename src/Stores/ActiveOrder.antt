-- ===== src/Stores/ActiveOrder.antt =====
-- active-order-store.ts: the order that the user is busy with.
use smart_parcel_locker.Prelude.{
  text_eq, ◌∷◌, Text, text, truthy, true, Option, none, some, [], if◌then◌else◌, ◌≡◌, ◌≢◌,
  text_eq-ne, refl, ◌∙◌,
}
use smart_parcel_locker.Stores.Storage.{Storage}
use smart_parcel_locker.Stores.Session.{SessionStore, user_id_key, clear_session}

unfoldable pub active_order_key : Text
active_order_key = text "spl.activeOrderId"

keys_differ : user_id_key ≢ active_order_key
unfolding user_id_key active_order_key text text_eq
keys_differ = text_eq-ne _ _ refl

pub record ActiveOrderStore (S : Type 0) : Type 0 where
  pub active_order_id : Option Text
  pub stored : S

module _ {S : Type 0} (storage : Storage S) where
  open storage use {
    get_item, set_item, remove_item, get_item-set_item, get_item-remove_item,
    get_item-remove_item_ne,
  }

  adopt : Option Text → ActiveOrderStore S → ActiveOrderStore S
  adopt none s = s
  adopt (some existing) s =
      if truthy existing then record s { active_order_id = some existing } else s

  -- `hydrate`
  unfoldable pub hydrate : ActiveOrderStore S → ActiveOrderStore S
  unfolding adopt
  hydrate s = adopt (get_item s.stored active_order_key) s

  -- `setActiveOrder`
  unfoldable pub set_active_order : Text → ActiveOrderStore S → ActiveOrderStore S
  set_active_order order_id s = record {
    active_order_id = some order_id;
    stored = set_item s.stored active_order_key order_id;
  }

  -- `clearActiveOrder`
  unfoldable pub clear_active_order : ActiveOrderStore S → ActiveOrderStore S
  clear_active_order s = record {
    active_order_id = none;
    stored = remove_item s.stored active_order_key;
  }

  -- The program is started again, on a storage.
  unfoldable pub started_on : S → ActiveOrderStore S
  started_on stored = record { active_order_id = none; stored = stored }

  get_item-clear_session :
      (stored : S) (user : Option Text)
      → get_item
          (clear_session storage (record { user_id = user; stored = stored })).stored
          active_order_key
        ≡ get_item stored active_order_key
  unfolding clear_session
  get_item-clear_session stored user =
      get_item-remove_item_ne stored user_id_key active_order_key keys_differ

  hydrate_of_some :
      (stored : S) (order_id : Text)
      → get_item stored active_order_key ≡ some order_id
      → truthy order_id ≡ true
      → (hydrate (started_on stored)).active_order_id ≡ some order_id
  unfolding hydrate started_on
  hydrate_of_some stored order_id h named = rw (h, named)

  get_item-set_active_order :
      (s : ActiveOrderStore S) (order_id : Text)
      → truthy order_id ≡ true
      → get_item (set_active_order order_id s).stored active_order_key ≡ some order_id
  unfolding set_active_order
  get_item-set_active_order s [] h = cc
  get_item-set_active_order s (c ∷ t) h = get_item-set_item s.stored active_order_key (c ∷ t)

  -- An order that was set, with an id that is not empty, is active again after a restart, also if
  -- the session was cleared in between.
  pub hydrate-set_active_order :
      (s : ActiveOrderStore S) (user : Option Text) (order_id : Text)
      → truthy order_id ≡ true
      → let kept = (set_active_order order_id s).stored in
        let session : SessionStore S = record { user_id = user; stored = kept } in
        ((hydrate (started_on kept)).active_order_id ≡ some order_id)
        × ((hydrate (started_on (clear_session storage session).stored)).active_order_id
            ≡ some order_id)
  hydrate-set_active_order s user order_id h =
      let found = get_item-set_active_order s order_id h in
      (
        hydrate_of_some _ order_id found h,
        hydrate_of_some _ order_id (get_item-clear_session _ user ∙ found) h,
      )

  -- After it was cleared, no order is active after a restart.
  pub hydrate-clear_active_order :
      (s : ActiveOrderStore S)
      → (hydrate (started_on (clear_active_order s).stored)).active_order_id ≡ none
  unfolding hydrate started_on clear_active_order
  hydrate-clear_active_order s = rw (get_item-remove_item s.stored active_order_key)
