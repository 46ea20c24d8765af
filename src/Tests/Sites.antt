-- ===== src/Tests/Sites.antt =====
-- Runs of the hook and the pages of the sites, of the first page and of the lists of orders.
use smart_parcel_locker.Prelude.{
  ◌*◌, ◌%◌, ◌/◌, ℕ, ◌+◌, ◌≤◌, text, text_eq, ◌++◌, false, none, some, List, [], ◌∷◌, ok, err,
  plain_error, ◌≡◌, refl, arith,
}
use smart_parcel_locker.Prelude.Int.{pos}
use smart_parcel_locker.Prelude.Number.{int, other, nearest}
use smart_parcel_locker.Prelude.Floats.{Floats, same_number}
use smart_parcel_locker.Prelude.Decimal.{print}
use smart_parcel_locker.SiteClient.{SiteSummaryDto}
use smart_parcel_locker.SiteView.{SiteCardView, to_site_card_view, distance_label}
use smart_parcel_locker.SiteView.Distance.{distance_label_within}
use smart_parcel_locker.Location.{Coordinates, LocationDependencies}
use smart_parcel_locker.Stores.Location.{initial_location, set_coordinates, select_city}
use smart_parcel_locker.SitesHook
use smart_parcel_locker.SitesHook.Progress.{sites_run-Waits, Waits}
use smart_parcel_locker.SitesHook.Replies.{sites_run-success, ShownBy}

-- No test has a number that is no integer.
abbrev pub no_fractions : Floats
no_fractions = record {
  add_fraction = λ a b. a;
  less_fraction = λ a b. false;
  less_equal_fraction = λ a b. false;
  kilometres_of_fraction = λ shown. shown;
  number_of_text = λ shown. other shown;
}

abbrev pub mall : SiteSummaryDto
mall = record {
  id = text "s1";
  site_no = text "S01";
  name = text "Mall";
  address = text "Street 1";
  latitude = int (pos 31);
  longitude = int (pos 121);
  distance_m = some (int (pos 2449));
  availability = record { size = text "CELL_SIZE_SMALL"; available_count = int (pos 3) } ∷ [];
}

abbrev here : Coordinates
here = record { latitude = int (pos 31); longitude = int (pos 121) }

abbrev found : List SitesHook.Event
found =
    SitesHook.Event.locate_settled (ok here) ∷ SitesHook.Event.load_settled 0 (ok (mall ∷ [])) ∷ []

abbrev pub mall_card : SiteCardView
mall_card = to_site_card_view no_fractions mall

sites_run-success_example :
    ShownBy no_fractions (SitesHook.start initial_location) found (mall_card ∷ [])
unfolding SitesHook.run SitesHook.step SitesHook.start initial_location SitesHook.take_out
    set_coordinates
sites_run-success_example =
    sites_run-success no_fractions initial_location found (mall_card ∷ []) refl

-- The user is found, selects another city, and the list is loading again.
abbrev moved : List SitesHook.Event
moved =
    SitesHook.Event.locate_settled (ok here)
    ∷ SitesHook.Event.city_selected (text "330100") (text "杭州市")
    ∷ []

sites_run-Waits_example :
    Waits (SitesHook.run no_fractions (SitesHook.start initial_location) moved)
unfolding SitesHook.run SitesHook.step SitesHook.start initial_location SitesHook.take_out
    set_coordinates select_city same_number text_eq text
sites_run-Waits_example = sites_run-Waits no_fractions initial_location moved (tt, (refl, tt)) refl

-- Where the position was refused and then the city is changed, the list waits for nothing.
abbrev stuck : List SitesHook.Event
stuck =
    SitesHook.Event.locate_settled (err (plain_error (text "denied")))
    ∷ SitesHook.Event.city_selected (text "330100") (text "杭州市")
    ∷ []

loading_in_vain : SitesHook.run no_fractions (SitesHook.start initial_location) stuck ≡ record {
  store = record {
    city_code = text "330100";
    city_name = text "杭州市";
    latitude = none;
    longitude = none;
  };
  state = SitesHook.SitesState.loading;
  locating = 0;
  pending = [];
}
unfolding SitesHook.run SitesHook.step SitesHook.start initial_location text text_eq select_city
loading_in_vain = refl

distance_label_within_example :
    (k : ℕ) × (distance_label no_fractions (some (int (pos 2449)))
      ≡ print (k / 10) ++ (b'.' ∷ (print (k % 10) ++ text "km")))
    × (100 * k ≤ 2449 + 50)
    × (2449 ≤ 100 * k + 50)
distance_label_within_example = distance_label_within no_fractions 2449 (omega arith) (omega arith)

distance_shown : distance_label no_fractions (some (int (pos 2449))) ≡ text "2.4km"
unfolding distance_label text print nearest
distance_shown = refl

abbrev on_phone : LocationDependencies
on_phone = record { is_h5 = false; preview_latitude = []; preview_longitude = [] }
