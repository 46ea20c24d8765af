-- ===== src/SiteClient/SiteNames.antt =====
-- A reply may name its fields as in the proto file or in camel case.
use smart_parcel_locker.Prelude.{Option, none, some, ◌or_else◌, List, [], ◌∷◌, map, ◌≡◌, refl, ap}
use smart_parcel_locker.Prelude.Number.{Number}
use smart_parcel_locker.OrderClient.Names.{Naming, proto_names, json_names, snake, camel}
use smart_parcel_locker.SiteClient.{
  CellAvailabilityDto, SiteSummaryDto, SiteDetailDto, CellDto, RawAvailabilityDto,
  RawSiteSummaryDto, RawSiteDetailDto, RawCellDto, normalize_availability, normalize_site_summary,
  normalize_site_detail, normalize_cell,
}

abbrev availability_of : Naming → CellAvailabilityDto → RawAvailabilityDto
availability_of n a = record {
  size = a.size;
  available_count = snake n a.available_count;
  available_count_camel = camel n a.available_count;
}

-- A field that may be missing, under either name.
abbrev snake_if : Naming → Option Number → Option Number
snake_if proto_names d = d
snake_if json_names d = none

abbrev camel_if : Naming → Option Number → Option Number
camel_if proto_names d = none
camel_if json_names d = d

abbrev summary_of : Naming → SiteSummaryDto → RawSiteSummaryDto
summary_of n s = record {
  id = s.id;
  site_no = snake n s.site_no;
  site_no_camel = camel n s.site_no;
  name = s.name;
  address = s.address;
  latitude = s.latitude;
  longitude = s.longitude;
  distance_m = snake_if n s.distance_m;
  distance_m_camel = camel_if n s.distance_m;
  availability = some (map (availability_of n) s.availability);
}

-- A site as the server writes it.
abbrev pub site_reply_of : Naming → SiteDetailDto → RawSiteDetailDto
site_reply_of n d = record {
  summary = summary_of n d.summary;
  open_time = snake n d.open_time;
  open_time_camel = camel n d.open_time;
  close_time = snake n d.close_time;
  close_time_camel = camel n d.close_time;
  online_device_count = snake n d.online_device_count;
  online_device_count_camel = camel n d.online_device_count;
}

-- A cell as the server writes it.
abbrev pub cell_reply_of : Naming → CellDto → RawCellDto
cell_reply_of n c = record {
  id = c.id;
  cell_no = snake n c.cell_no;
  cell_no_camel = camel n c.cell_no;
  size = c.size;
  status = c.status;
}

availability-availability_of :
    (n : Naming) (xs : List CellAvailabilityDto)
    → map normalize_availability (map (availability_of n) xs) ≡ xs
unfolding normalize_availability
availability-availability_of n [] = refl
availability-availability_of proto_names (x ∷ xs) =
    ap (λ rest. x ∷ rest) (availability-availability_of proto_names xs)
availability-availability_of json_names (x ∷ xs) =
    ap (λ rest. x ∷ rest) (availability-availability_of json_names xs)

distance_kept : (n : Naming) (d : Option Number) → (snake_if n d or_else camel_if n d) ≡ d
distance_kept proto_names none = refl
distance_kept proto_names (some x) = refl
distance_kept json_names d = refl

-- The details of a site, with the distance if there is one and the cells that are free, and a cell
-- are read back from the server's reply, in either naming.
pub normalize_site_detail-site_reply_of :
    (n : Naming) (d : SiteDetailDto) (c : CellDto)
    → (normalize_site_detail (site_reply_of n d) ≡ d) × (normalize_cell (cell_reply_of n c) ≡ c)
unfolding normalize_site_detail normalize_site_summary normalize_cell
normalize_site_detail-site_reply_of proto_names d c = (
  rw (
    availability-availability_of proto_names d.summary.availability,
    distance_kept proto_names d.summary.distance_m,
  ),
  refl,
)
normalize_site_detail-site_reply_of json_names d c =
    (rw (availability-availability_of json_names d.summary.availability), refl)
