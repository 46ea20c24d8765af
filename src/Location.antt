-- ===== src/Location.antt =====
-- frontend/apps/miniapp/src/features/sites/location.ts: where the user is. The platform's answer
-- is a parameter; on H5 a preview position of the build takes its place.
use smart_parcel_locker.Prelude.{
  Text, text, trim, truthy, Bool, true, not, ◌&&◌, ◌||◌, Option, none, some, Result, ok, err,
  plain_error, if◌then◌else◌, ◌≡◌, ◌↔◌, ◌⊎◌, arith,
}
use smart_parcel_locker.Prelude.Int.{pos, negsuc}
use smart_parcel_locker.Prelude.Number.{Number, int}
use smart_parcel_locker.Prelude.Floats.{Floats, less_equal, is_finite}

pub record Coordinates : Type 0 where
  pub latitude : Number
  pub longitude : Number

-- `LocationDependencies`, but for the call of the platform
pub record LocationDependencies : Type 0 where
  pub is_h5 : Bool
  pub preview_latitude : Text
  pub preview_longitude : Text

-- `validCoordinates`
unfoldable pub valid_coordinates : Floats → Coordinates → Bool
valid_coordinates f c =
    is_finite c.latitude
    && is_finite c.longitude
    && less_equal f (int (negsuc 89)) c.latitude
    && less_equal f c.latitude (int (pos 90))
    && less_equal f (int (negsuc 179)) c.longitude
    && less_equal f c.longitude (int (pos 180))

-- `previewCoordinates`
unfoldable pub preview_coordinates : Floats → Text → Text → Option Coordinates
preview_coordinates f latitude longitude =
    let c : Coordinates = record {
      latitude = f.number_of_text latitude;
      longitude = f.number_of_text longitude;
    } in
    if not (truthy (trim latitude)) || not (truthy (trim longitude))
    then none
    else if valid_coordinates f c
    then some c
    else none

-- The preview position, on H5.
unfoldable pub preview : Floats → LocationDependencies → Option Coordinates
preview f d = if d.is_h5 then preview_coordinates f d.preview_latitude d.preview_longitude else none

checked : Floats → Result Coordinates → Result Coordinates
checked f (err e) = err e
checked f (ok c) =
    if valid_coordinates f c then ok c else err (plain_error (text "Invalid coordinates"))

-- `getCurrentCoordinates`; `answer` is what `getLocation` settles with, if it is asked.
unfoldable pub get_current_coordinates :
    Floats → LocationDependencies → Result Coordinates → Result Coordinates
unfolding checked
get_current_coordinates f d answer = elim (preview f d) [ some c ↦ ok c | none ↦ checked f answer ]

preview_valid :
    (f : Floats) (d : LocationDependencies) (c : Coordinates)
    → preview f d ≡ some c
    → valid_coordinates f c ≡ true
unfolding preview preview_coordinates
preview_valid f d c h = ground arith

checked_iff :
    (f : Floats) (answer : Result Coordinates) (c : Coordinates)
    → (checked f answer ≡ ok c) ↔ ((answer ≡ ok c) × (valid_coordinates f c ≡ true))
unfolding checked
checked_iff f (err e) c = ground arith
checked_iff f (ok a) c = ground arith

abbrev pub Locates : Floats → LocationDependencies → Result Coordinates → Coordinates → Type 0
Locates f d answer c = (preview f d ≡ some c) ⊎ ((preview f d ≡ none) × (answer ≡ ok c))

-- A position is found exactly if it is the preview position or, where there is none, the platform's
-- answer, and lies between the poles and within 180 degrees of the meridian.
pub get_current_coordinates_iff :
    (f : Floats) (d : LocationDependencies) (answer : Result Coordinates) (c : Coordinates)
    → (get_current_coordinates f d answer ≡ ok c)
      ↔ (Locates f d answer c × (valid_coordinates f c ≡ true))
unfolding get_current_coordinates
get_current_coordinates_iff f d answer c =
    ground (arith, preview_valid f d c, checked_iff f answer c)
