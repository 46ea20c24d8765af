-- ===== src/Tests/SitePages.antt =====
-- Runs of the pages of the sites, of the first page and of the lists of orders.
use smart_parcel_locker.Prelude.{
  ◌+◌, ◌≤◌, Text, text, text_eq, ◌++◌, false, some, List, [], ◌∷◌, ok, err, plain_error, ◌≡◌, refl,
  ◌↔◌, Memᴰ, arith,
}
use smart_parcel_locker.Prelude.Int.{pos}
use smart_parcel_locker.Prelude.Number.{int}
use smart_parcel_locker.Prelude.Decimal.{print}
use smart_parcel_locker.Prelude.Uri.{encode_uri_component}
use smart_parcel_locker.Prelude.Uri.Decode.{decode_uri_component}
use smart_parcel_locker.Order.{in_storage}
use smart_parcel_locker.OrderClient.{OrderDto}
use smart_parcel_locker.OrderHook.{settle_reload, reload, initial_hook}
use smart_parcel_locker.SiteClient.{SiteDetailDto, CellDto}
use smart_parcel_locker.SiteView.{to_site_card_view}
use smart_parcel_locker.Components.{status_pill}
use smart_parcel_locker.DetailPage.{is_terminal}
use smart_parcel_locker.Stores.Location.{initial_location}
use smart_parcel_locker.Stores.ActiveOrder.{hydrate, set_active_order}
use smart_parcel_locker.HomePage
use smart_parcel_locker.HomePage.Search.{filtered_sites_iff, Matches}
use smart_parcel_locker.HomePage.ActiveOrder.{home_run-card}
use smart_parcel_locker.SiteDetail
use smart_parcel_locker.SiteDetail.Laws.{site_run-success, AnsweredBy}
use smart_parcel_locker.SiteDetail.FreeCells.{counts-le, free}
use smart_parcel_locker.LockerSelection
use smart_parcel_locker.LockerSelection.Laws.{
  next-create_input, selection_route-start, IsSize, IsDuration,
}
use smart_parcel_locker.ConfirmPage.{create_input}
use smart_parcel_locker.OrdersPage
use smart_parcel_locker.Tests.Sample.{order_with}
use smart_parcel_locker.Tests.Shared.{Values, storage, shared}
use smart_parcel_locker.Tests.Sites.{no_fractions, mall, mall_card}

filtered_sites_iff_example :
    Memᴰ mall_card (HomePage.filtered_sites (text "all") (mall_card ∷ []))
    ↔ (Memᴰ mall_card (mall_card ∷ []) × Matches mall_card (text "all"))
unfolding text
filtered_sites_iff_example = filtered_sites_iff (text "all") (mall_card ∷ []) mall_card refl

found_by_part : HomePage.filtered_sites (text "all") (mall_card ∷ []) ≡ mall_card ∷ []
unfolding HomePage.filtered_sites text HomePage.matching HomePage.includes to_site_card_view
found_by_part = refl

-- An order is created while the first page stands behind, and the page loads it.
abbrev created : List HomePage.Event
created =
    HomePage.Event.order_created (text "o1")
    ∷ HomePage.Event.order_settled (ok (order_with in_storage))
    ∷ []

abbrev home_after : HomePage.HomePage Values
home_after =
    HomePage.run storage no_fractions (HomePage.start storage initial_location shared) created

home_run-card_example :
    (o : OrderDto) × (home_after.hook.order ≡ some o)
    × (status_pill in_storage ≡ status_pill o.status)
    × (is_terminal o.status ≡ false)
unfolding HomePage.run HomePage.start HomePage.step HomePage.render_active_order text text_eq
    hydrate set_active_order reload initial_hook settle_reload
home_run-card_example =
    home_run-card storage no_fractions initial_location shared created (text "当前订单")
      (text "Mall · 柜格 A01") (text "点击查看") (status_pill in_storage) refl refl

abbrev mall_detail : SiteDetailDto
mall_detail = record {
  summary = mall;
  open_time = [];
  close_time = [];
  online_device_count = int (pos 1);
}

abbrev cells : List CellDto
cells =
    record {
      id = text "c1";
      cell_no = text "A1";
      size = text "CELL_SIZE_SMALL";
      status = text "CELL_STATUS_IDLE";
    }
    ∷ record {
      id = text "c2";
      cell_no = text "A2";
      size = text "CELL_SIZE_LARGE";
      status = text "CELL_STATUS_IN_USE";
    }
    ∷ []

abbrev answered : List SiteDetail.Event
answered = SiteDetail.Event.load_settled (ok (mall_detail, cells)) ∷ []

site_run-success_example :
    (site : SiteDetailDto) × ((SiteDetail.run (SiteDetail.start (text "s1")) answered).site
      ≡ some site)
    × (SiteDetail.is_zero site.online_device_count ≡ false)
    × AnsweredBy
        (SiteDetail.start (text "s1"))
        answered
        site
        (SiteDetail.run (SiteDetail.start (text "s1")) answered).cells
unfolding SiteDetail.run SiteDetail.step SiteDetail.start text
site_run-success_example = site_run-success (text "s1") answered refl

counts-le_example :
    (SiteDetail.counts cells).small
      + (SiteDetail.counts cells).medium
      + (SiteDetail.counts cells).large
    ≤ free cells
counts-le_example = counts-le cells

abbrev site_page : SiteDetail.SiteDetailPage
site_page = SiteDetail.run (SiteDetail.start (text "s1")) answered

selection_route-start_example :
    (id : Text) × (name : Text) × (text "/pages/locker-selection/index?siteId=s1&siteName=Mall"
      ≡ text "/pages/locker-selection/index?siteId=" ++ (id ++ (text "&siteName=" ++ name)))
    × (encode_uri_component site_page.site_id ≡ ok id)
    × (LockerSelection.start (some id) (some name)
        ≡ ok (record {
          site_id = id;
          site_name = SiteDetail.site_name site_page.site [];
          size = text "CELL_SIZE_SMALL";
          duration_minutes = 60;
        }))
unfolding SiteDetail.run SiteDetail.step SiteDetail.start text SiteDetail.selection_route
    encode_uri_component
selection_route-start_example =
    selection_route-start site_page (text "/pages/locker-selection/index?siteId=s1&siteName=Mall")
      (omega arith, (omega arith, (omega arith, (omega arith, tt)))) refl

abbrev selection : LockerSelection.LockerSelection
selection = record {
  site_id = text "s1";
  site_name = text "Mall";
  size = text "CELL_SIZE_SMALL";
  duration_minutes = 60;
}

abbrev taps : List LockerSelection.Event
taps = LockerSelection.Event.tap_size 2 ∷ LockerSelection.Event.tap_duration 1 ∷ []

abbrev chosen : LockerSelection.LockerSelection
chosen = LockerSelection.run selection taps

next-create_input_example :
    (id : Text) × (encode_uri_component chosen.site_id ≡ ok id)
    × (text "/pages/order-confirm/index?siteId=s1&size=CELL_SIZE_LARGE&durationMinutes=120"
        ≡ text "/pages/order-confirm/index?siteId="
          ++ (id
              ++ (text "&size="
                  ++ (chosen.size ++ (text "&durationMinutes=" ++ print chosen.duration_minutes)))))
    × (create_input (some id) (some chosen.size) (some (print chosen.duration_minutes)) ≡ record {
      site_id = id;
      size = chosen.size;
      duration_minutes = int (pos chosen.duration_minutes);
    })
    × IsSize chosen.size
    × IsDuration chosen.duration_minutes
unfolding LockerSelection.start LockerSelection.next LockerSelection.run LockerSelection.step text
    encode_uri_component print decode_uri_component LockerSelection.size_options
    LockerSelection.duration_options
next-create_input_example =
    next-create_input (some (text "s1")) (some (text "Mall")) selection taps
      (text "/pages/order-confirm/index?siteId=s1&size=CELL_SIZE_LARGE&durationMinutes=120") refl
      refl

abbrev retried : List OrdersPage.Event
retried =
    OrdersPage.Event.load_settled (err (plain_error (text "no reply")))
    ∷ OrdersPage.Event.tap_retry
    ∷ []
