-- ===== src/Stores/Storage.antt =====
-- session-store.ts: `KeyValueStorage`, and `taroStorage` over the platform's storage.
use smart_parcel_locker.Prelude.{◌∷◌, [], Text, Option, none, some, ◌≡◌, ◌≢◌, ap}

-- A value as it is read back: the empty string counts as missing.
abbrev pub present : Text → Option Text
present [] = none
present (c ∷ s) = some (c ∷ s)

-- `KeyValueStorage`, over the contents `S` of the storage, and what the stores rely on.
pub record Storage (S : Type 0) : Type 0 where
  pub get_item : S → Text → Option Text
  pub set_item : S → Text → Text → S
  pub remove_item : S → Text → S
  pub get_item-set_item :
      (s : S) (key value : Text) → get_item (set_item s key value) key ≡ present value
  pub get_item-set_item_ne :
      (s : S) (key other value : Text)
      → key ≢ other
      → get_item (set_item s key value) other ≡ get_item s other
  pub get_item-remove_item : (s : S) (key : Text) → get_item (remove_item s key) key ≡ none
  pub get_item-remove_item_ne :
      (s : S) (key other : Text)
      → key ≢ other
      → get_item (remove_item s key) other ≡ get_item s other

-- The platform's storage of strings: `getStorageSync` returns the value that was set, and the
-- empty string for a key that is not there.
pub record TaroStorage (S : Type 0) : Type 0 where
  pub get_storage_sync : S → Text → Text
  pub set_storage_sync : S → Text → Text → S
  pub remove_storage_sync : S → Text → S
  pub get-set :
      (s : S) (key value : Text) → get_storage_sync (set_storage_sync s key value) key ≡ value
  pub get-set_ne :
      (s : S) (key other value : Text)
      → key ≢ other
      → get_storage_sync (set_storage_sync s key value) other ≡ get_storage_sync s other
  pub get-remove : (s : S) (key : Text) → get_storage_sync (remove_storage_sync s key) key ≡ []
  pub get-remove_ne :
      (s : S) (key other : Text)
      → key ≢ other
      → get_storage_sync (remove_storage_sync s key) other ≡ get_storage_sync s other

-- `taroStorage`
abbrev pub taro_storage : {S : Type 0} → TaroStorage S → Storage S
taro_storage taro = record {
  get_item = λ s key. present (taro.get_storage_sync s key);
  set_item = taro.set_storage_sync;
  remove_item = taro.remove_storage_sync;
  get_item-set_item = λ s key value. ap present (taro.get-set s key value);
  get_item-set_item_ne = λ s key other value h. ap present (taro.get-set_ne s key other value h);
  get_item-remove_item = λ s key. ap present (taro.get-remove s key);
  get_item-remove_item_ne = λ s key other h. ap present (taro.get-remove_ne s key other h);
}
