-- ===== src/SiteClient.antt =====
-- frontend/packages/api-client/src/site-client.ts: the cities, sites and cells of the server's
-- replies, made uniform, and the requests of each method.
pub mod SiteNames
use smart_parcel_locker.Prelude.{
  Text, text, Option, none, some, ◌or◌, ◌or_else◌, List, [], ◌∷◌, ◌++◌, Result, ok, ◌>>=◌, map,
}
use smart_parcel_locker.Prelude.Int.{pos}
use smart_parcel_locker.Prelude.Number.{Number, int}
use smart_parcel_locker.Prelude.Uri.{encode_uri_component}
use smart_parcel_locker.Http.{RequestInput, RequestFn, Scalar, str, num}

pub record CityDto : Type 0 where
  pub id : Text
  pub code : Text
  pub name : Text
  pub province : Text

pub record CellAvailabilityDto : Type 0 where
  pub size : Text
  pub available_count : Number

pub record SiteSummaryDto : Type 0 where
  pub id : Text
  pub site_no : Text
  pub name : Text
  pub address : Text
  pub latitude : Number
  pub longitude : Number
  pub distance_m : Option Number
  pub availability : List CellAvailabilityDto

-- The fields of the summary are spread into the value.
pub record SiteDetailDto : Type 0 where
  pub summary : SiteSummaryDto
  pub open_time : Text
  pub close_time : Text
  pub online_device_count : Number

pub record CellDto : Type 0 where
  pub id : Text
  pub cell_no : Text
  pub size : Text
  pub status : Text

pub record RawAvailabilityDto : Type 0 where
  pub size : Text
  pub available_count : Option Number
  pub available_count_camel : Option Number

pub record RawSiteSummaryDto : Type 0 where
  pub id : Text
  pub site_no : Option Text
  pub site_no_camel : Option Text
  pub name : Text
  pub address : Text
  pub latitude : Number
  pub longitude : Number
  pub distance_m : Option Number
  pub distance_m_camel : Option Number
  pub availability : Option (List RawAvailabilityDto)

pub record RawSiteDetailDto : Type 0 where
  pub summary : RawSiteSummaryDto
  pub open_time : Option Text
  pub open_time_camel : Option Text
  pub close_time : Option Text
  pub close_time_camel : Option Text
  pub online_device_count : Option Number
  pub online_device_count_camel : Option Number

pub record RawCellDto : Type 0 where
  pub id : Text
  pub cell_no : Option Text
  pub cell_no_camel : Option Text
  pub size : Text
  pub status : Text

-- `normalizeAvailability`
unfoldable pub normalize_availability : RawAvailabilityDto → CellAvailabilityDto
normalize_availability item = record {
  size = item.size;
  available_count = item.available_count or_else item.available_count_camel or int (pos 0);
}

-- `normalizeSiteSummary`
unfoldable pub normalize_site_summary : RawSiteSummaryDto → SiteSummaryDto
normalize_site_summary site = record {
  id = site.id;
  site_no = site.site_no or_else site.site_no_camel or [];
  name = site.name;
  address = site.address;
  latitude = site.latitude;
  longitude = site.longitude;
  distance_m = site.distance_m or_else site.distance_m_camel;
  availability = map normalize_availability (site.availability or []);
}

-- `normalizeSiteDetail`
unfoldable pub normalize_site_detail : RawSiteDetailDto → SiteDetailDto
normalize_site_detail site = record {
  summary = normalize_site_summary site.summary;
  open_time = site.open_time or_else site.open_time_camel or [];
  close_time = site.close_time or_else site.close_time_camel or [];
  online_device_count =
      site.online_device_count or_else site.online_device_count_camel or int (pos 0);
}

-- `normalizeCell`
unfoldable pub normalize_cell : RawCellDto → CellDto
normalize_cell cell = record {
  id = cell.id;
  cell_no = cell.cell_no or_else cell.cell_no_camel or [];
  size = cell.size;
  status = cell.status;
}

pub record ListSitesInput : Type 0 where
  pub city_code : Text
  pub latitude : Option Number
  pub longitude : Option Number
  pub radius_m : Option Number

abbrev num_value : Option Number → Option Scalar
num_value none = none
num_value (some n) = some (num n)

abbrev str_value : Option Text → Option Scalar
str_value none = none
str_value (some t) = some (str t)

-- The client over `request`, at the types of its replies; a reply or a result that has one field,
-- `cities`, `sites` or `cells`, is the list in it.
module _ (request_cities : RequestFn (List CityDto))
    (request_sites : RequestFn (List RawSiteSummaryDto)) (request_site : RequestFn RawSiteDetailDto)
    (request_cells : RequestFn (List RawCellDto)) where
  unfoldable pub list_cities : Result (List CityDto)
  list_cities =
      request_cities (record { path = text "/v1/cities"; method = none; query = none; body = none })

  unfoldable pub list_sites : ListSitesInput → Result (List SiteSummaryDto)
  list_sites input = do
    sites ← request_sites (record {
      path = text "/v1/sites";
      method = none;
      query = some (
          (text "city_code", some (str input.city_code))
          ∷ (text "latitude", num_value input.latitude)
          ∷ (text "longitude", num_value input.longitude)
          ∷ (text "radius_m", num_value input.radius_m)
          ∷ []);
      body = none;
    })
    ok (map normalize_site_summary sites)

  unfoldable pub get_site : Text → Result SiteDetailDto
  get_site site_id = do
    id ← encode_uri_component site_id
    site ←
        request_site
          (record { path = text "/v1/sites/" ++ id; method = none; query = none; body = none })
    ok (normalize_site_detail site)

  unfoldable pub list_cells : Text → Option Text → Result (List CellDto)
  list_cells site_id size = do
    id ← encode_uri_component site_id
    cells ← request_cells (record {
      path = text "/v1/sites/" ++ (id ++ text "/cells");
      method = none;
      query = some ((text "size", str_value size) ∷ []);
      body = none;
    })
    ok (map normalize_cell cells)
