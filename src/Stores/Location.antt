-- ===== src/Stores/Location.antt =====
-- location-store.ts: the city and the coordinates. A coordinate is a number that the platform gives.
use smart_parcel_locker.Prelude.{Text, text, Option, none, some}
use smart_parcel_locker.Prelude.Number.{Number}

pub record LocationStore : Type 0 where
  pub city_code : Text
  pub city_name : Text
  pub latitude : Option Number
  pub longitude : Option Number

-- `initialLocation`
unfoldable pub initial_location : LocationStore
initial_location = record {
  city_code = text "310100";
  city_name = text "上海市";
  latitude = none;
  longitude = none;
}

unfoldable pub select_city : Text → Text → LocationStore → LocationStore
select_city code name s = record s { city_code = code; city_name = name }

unfoldable pub set_coordinates : Number → Number → LocationStore → LocationStore
set_coordinates latitude longitude s = record s {
  latitude = some latitude;
  longitude = some longitude;
}

-- `reset`
unfoldable pub reset : LocationStore → LocationStore
reset s = initial_location
