-- ===== src/Stores/Session.antt =====
-- session-store.ts: the user of the session. A store is a pair of its state and the storage.
use smart_parcel_locker.Prelude.{
  inr, inl, Bool-cases, Option-cases, ◌∙◌, true, Text, text, truthy, Option, none, some,
  if◌then◌else◌, ◌≡◌, refl,
}
use smart_parcel_locker.Stores.Storage.{Storage, present}

unfoldable pub user_id_key : Text
user_id_key = text "spl.session.userId"

unfoldable pub dev_user_id : Text
dev_user_id = text "dev-user"

pub record SessionStore (S : Type 0) : Type 0 where
  pub user_id : Option Text
  pub stored : S

module _ {S : Type 0} (storage : Storage S) where
  open storage use {
    get_item, set_item, remove_item, get_item-set_item, get_item-set_item_ne, get_item-remove_item,
    get_item-remove_item_ne,
  }

  set_dev_user : SessionStore S → SessionStore S
  set_dev_user s = record {
    user_id = some dev_user_id;
    stored = set_item s.stored user_id_key dev_user_id;
  }

  adopt : Option Text → SessionStore S → SessionStore S
  unfolding set_dev_user
  adopt none s = set_dev_user s
  adopt (some existing) s =
      if truthy existing then record s { user_id = some existing } else set_dev_user s

  -- `hydrate`
  unfoldable pub hydrate : SessionStore S → SessionStore S
  unfolding adopt
  hydrate s = adopt (get_item s.stored user_id_key) s

  -- `clearSession`
  unfoldable pub clear_session : SessionStore S → SessionStore S
  clear_session s = record { user_id = none; stored = remove_item s.stored user_id_key }

  -- The program is started again: the storage is what is left.
  unfoldable pub restart : SessionStore S → SessionStore S
  restart s = record { user_id = none; stored = s.stored }

  dev_user_present : present dev_user_id ≡ some dev_user_id
  unfolding dev_user_id text
  dev_user_present = refl

  named_dev_user : truthy dev_user_id ≡ true
  unfolding dev_user_id text
  named_dev_user = refl

  -- A user is signed in, and is the one in the storage.
  pub record IsSignedIn (s : SessionStore S) (user : Text) : Type 0 where
    pub shown : s.user_id ≡ some user
    pub kept : get_item s.stored user_id_key ≡ some user
    pub named : truthy user ≡ true

  set_dev_user-IsSignedIn : (s : SessionStore S) → IsSignedIn (set_dev_user s) dev_user_id
  unfolding set_dev_user
  set_dev_user-IsSignedIn s = record {
    shown = refl;
    kept = get_item-set_item s.stored user_id_key dev_user_id ∙ dev_user_present;
    named = named_dev_user;
  }

  hydrate_of_none :
      (s : SessionStore S)
      → get_item s.stored user_id_key ≡ none
      → IsSignedIn (hydrate s) dev_user_id
  unfolding hydrate
  hydrate_of_none s h = rw h (set_dev_user-IsSignedIn s)

  hydrate_of_some :
      (s : SessionStore S) (user : Text)
      → get_item s.stored user_id_key ≡ some user
      → (chosen : Text) × IsSignedIn (hydrate s) chosen
  unfolding hydrate
  hydrate_of_some s user h = elim (Bool-cases (truthy user)) [
    | inl named ↦ (user, rw (h, named) (record { shown = refl; kept = h; named = named }))
    | inr falsy ↦ (dev_user_id, rw (h, falsy) (set_dev_user-IsSignedIn s))
  ]

  hydrate-IsSignedIn : (s : SessionStore S) → (user : Text) × IsSignedIn (hydrate s) user
  hydrate-IsSignedIn s = elim (Option-cases (get_item s.stored user_id_key)) [
    | inl h ↦ (dev_user_id, hydrate_of_none s h)
    | inr (user, h) ↦ hydrate_of_some s user h
  ]

  hydrate_again : (s : SessionStore S) (user : Text) → IsSignedIn s user → hydrate (restart s) ≡ s
  unfolding hydrate restart
  hydrate_again s user h = rw (h.kept, h.named, ← h.shown)

  -- Hydrating signs a user in, in the state and in the storage, and hydrating again after a restart
  -- gives the same state.
  pub hydrate-restart :
      (s : SessionStore S)
      → ((user : Text) × IsSignedIn (hydrate s) user) × (hydrate (restart (hydrate s)) ≡ hydrate s)
  hydrate-restart s =
      let (user, h) = hydrate-IsSignedIn s in ((user, h), hydrate_again (hydrate s) user h)

  -- Whoever was signed in, after clearing the session and a restart it is the development user.
  pub hydrate-clear_session :
      (s : SessionStore S) → IsSignedIn (hydrate (restart (clear_session s))) dev_user_id
  unfolding restart clear_session
  hydrate-clear_session s = hydrate_of_none _ (get_item-remove_item s.stored user_id_key)
