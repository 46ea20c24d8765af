-- ===== src/Tests/Client.antt =====
-- The client, the formats and the order's tables at concrete inputs.
use smart_parcel_locker.Prelude.{
  ◌^◌, inl, if◌then◌else◌, Text, text, text_eq, none, some, [], ◌∷◌, ok, err, type_error, app_error,
  Failure, permission_denied, ◌≡◌, refl, ◌↔◌, ◌⊎◌, arith, Memᴰ, trim_start,
}
use smart_parcel_locker.Prelude.Int.{pos, negsuc}
use smart_parcel_locker.Prelude.Number.{round, other, int, to_number, parse_int}
use smart_parcel_locker.Prelude.Decimal.{print_int, print, scan}
use smart_parcel_locker.Prelude.Uri.{encode_uri_component, IsUriText}
use smart_parcel_locker.Order.{
  pending_payment, inherited, pay, cancel, contact_support, overdue, available_order_actions,
}
use smart_parcel_locker.Order.Actions.{
  Allows, Fails, available_order_actions_iff, available_order_actions-eq-err_iff,
}
use smart_parcel_locker.Order.Cast.{cast_status, status_text}
use smart_parcel_locker.Order.Timeline.{
  status_timeline, status_timeline-IsProgress, IsProgress, states,
}
use smart_parcel_locker.Money.{format_fen}
use smart_parcel_locker.Money.RoundTrip.{read_fen, read_fen-format_fen}
use smart_parcel_locker.Http.{
  read_error_body, read_answer, RequestInput, WireRequest, Answer, response, Json,
  create_taro_request, query_parts, object, show_scalar, field, end, str,
}
use smart_parcel_locker.Http.{get}
use smart_parcel_locker.Http.Wire.{Sent}
use smart_parcel_locker.Http.Refusal.{Denies}
use smart_parcel_locker.Http.Laws.{
  create_taro_request-eq-ok_iff, create_taro_request-eq-err, Answers,
}
use smart_parcel_locker.OrderClient.{to_fen, normalize_order, RawFen}
use smart_parcel_locker.OrderClient.Fen.{to_fen-print_int}
use smart_parcel_locker.OrderClient.Names.{
  reply_of, json_names, normalize_order-reply_of, IsRepresentable,
}
use smart_parcel_locker.SiteClient.{SiteDetailDto, CellDto, normalize_site_detail, normalize_cell}
use smart_parcel_locker.SiteClient.SiteNames.{
  site_reply_of, cell_reply_of, normalize_site_detail-site_reply_of,
}
use smart_parcel_locker.OrderHook.{order_action_route}
use smart_parcel_locker.OrderHook.Routes.{order_action_route-Leads, Leads}
use smart_parcel_locker.Components.{FeeSummaryProps}
use smart_parcel_locker.Tests.Sample.{order_with}

available_order_actions_iff_example :
    Memᴰ cancel (pay ∷ cancel ∷ contact_support ∷ []) ↔ Allows pending_payment cancel
available_order_actions_iff_example =
    available_order_actions_iff pending_payment cancel (pay ∷ cancel ∷ contact_support ∷ [])
      (unfold available_order_actions in refl)

available_order_actions-eq-err_iff_example :
    (available_order_actions (cast_status (text "constructor")) ≡ err type_error)
    ↔ Fails (text "constructor") type_error
available_order_actions-eq-err_iff_example =
    available_order_actions-eq-err_iff (text "constructor") type_error

cast_prototype_name : cast_status (text "constructor") ≡ inherited (text "constructor")
unfolding cast_status text text_eq
cast_prototype_name = refl

status_timeline-IsProgress_example :
    IsProgress (states (status_timeline overdue)) ⊎ ((t : Text) × (overdue ≡ inherited t))
status_timeline-IsProgress_example = status_timeline-IsProgress overdue

read_fen-format_fen_example :
    (t : Text) × (format_fen (int (negsuc 499)) ≡ ok t) × (read_fen t ≡ negsuc 499)
read_fen-format_fen_example = read_fen-format_fen (negsuc 499) (omega arith)

format_fen_test : format_fen (int (pos 1205)) ≡ ok (text "¥12.05")
unfolding format_fen text print
format_fen_test = refl

format_fen_large : format_fen (int (pos (2 ^ 77))) ≡ ok (text "¥1.5111572745182865e+21.72")
unfolding format_fen text print round
format_fen_large = refl

to_fen-print_int_example :
    (to_fen (some (RawFen.string (print_int (pos 1250)))) ≡ ok (pos 1250))
    × (to_fen (some (RawFen.number (int (pos 1250)))) ≡ ok (pos 1250))
to_fen-print_int_example = to_fen-print_int (pos 1250) (omega arith)

-- Beyond the safe integers an int64 of the server is rounded.
to_fen_rounds : to_fen (some (RawFen.string (text "9007199254740993"))) ≡ ok (pos 9007199254740992)
unfolding to_fen text parse_int to_number trim_start scan
to_fen_rounds = refl

-- A string that is no integer is cut off, where a number that is none is refused.
to_fen_cuts : to_fen (some (RawFen.string (text "12.50"))) ≡ ok (pos 12)
unfolding to_fen text parse_int to_number trim_start scan
to_fen_cuts = refl

sample_IsRepresentable : IsRepresentable (order_with pending_payment)
unfolding cast_status status_text text text_eq
sample_IsRepresentable = record {
  rent = omega arith;
  deposit = omega arith;
  discount = omega arith;
  total = omega arith;
  overdue = omega arith;
  status = refl;
}

normalize_order-reply_of_example :
    normalize_order (reply_of json_names (order_with pending_payment))
    ≡ ok (order_with pending_payment)
normalize_order-reply_of_example =
    normalize_order-reply_of json_names (order_with pending_payment) sample_IsRepresentable

abbrev forbidden : WireRequest → Answer
forbidden w = response (record {
  status_code = 403;
  request_id = some (text "t1");
  content = object (field (text "reason") (Json.string (text "PERMISSION_DENIED")) end);
})

abbrev input : RequestInput
input = record {
  path = text "/v1/sites";
  method = none;
  query = some ((text "q", some (str (text "a b"))) ∷ []);
  body = none;
}

-- A platform that answers this one request.
abbrev expected : WireRequest
expected = record { url = text "http://h/v1/sites?q=a%20b"; method = get; body = none; header = [] }

abbrev accepting : WireRequest → Answer
accepting w = response (record {
  status_code = if text_eq w.url expected.url then 200 else 404;
  request_id = none;
  content = Json.null;
})

accepted : create_taro_request accepting (text "http://h/") input ≡ ok Json.null
unfolding create_taro_request read_answer read_error_body encode_uri_component query_parts
    show_scalar text text_eq
accepted = refl

create_taro_request-eq-ok_iff_example :
    (create_taro_request accepting (text "http://h/") input ≡ ok Json.null) ↔ (
      (wire : WireRequest) × Sent (text "http://h/") input wire
      × Answers (accepting wire) Json.null)
create_taro_request-eq-ok_iff_example =
    create_taro_request-eq-ok_iff accepting (text "http://h/") input Json.null

abbrev denied : Failure
denied =
    app_error
      (record { code = permission_denied; message = text "请求失败"; trace_id = some (text "t1") })

forbidden_fails : create_taro_request forbidden (text "http://h/") input ≡ err denied
unfolding create_taro_request read_answer read_error_body encode_uri_component query_parts
    show_scalar text text_eq
forbidden_fails = refl

expected-Sent : Sent (text "http://h/") input expected
unfolding encode_uri_component show_scalar text
expected-Sent = (
  text "http://h",
  text "?q=a%20b",
  inl refl,
  (text "q", text "a%20b", [], refl, refl, refl, refl),
  refl,
  (refl, refl, refl),
)

create_taro_request-eq-err_example : Denies (forbidden expected) denied
create_taro_request-eq-err_example =
    create_taro_request-eq-err forbidden (text "http://h/") input expected denied expected-Sent
      forbidden_fails

pay_route :
    order_action_route pay (text "o 1") ≡ ok (some (text "/pages/payment/index?orderId=o%201"))
unfolding order_action_route encode_uri_component text
pay_route = refl

order_action_route-Leads_example :
    (id : Text) × (encode_uri_component (text "o 1") ≡ ok id)
    × IsUriText id
    × Leads (text "/pages/payment/index?orderId=o%201") id
order_action_route-Leads_example =
    order_action_route-Leads pay (text "o 1") (text "/pages/payment/index?orderId=o%201")
      (unfold text in omega arith) pay_route

abbrev fees : FeeSummaryProps
fees = record {
  rent_fee_fen = pos 300;
  deposit_fen = pos 500;
  discount_fen = pos 0;
  total_fen = pos 920;
  overdue_fee_fen = some (pos 120);
}

abbrev mall : SiteDetailDto
mall = record {
  summary = record {
    id = text "s1";
    site_no = text "S001";
    name = text "Mall";
    address = text "1 Main St";
    latitude = other (text "31.2");
    longitude = other (text "121.5");
    distance_m = some (int (pos 120));
    availability = record { size = text "CELL_SIZE_SMALL"; available_count = int (pos 3) } ∷ [];
  };
  open_time = text "08:00";
  close_time = text "22:00";
  online_device_count = int (pos 2);
}

abbrev cell : CellDto
cell = record {
  id = text "c1";
  cell_no = text "A01";
  size = text "CELL_SIZE_SMALL";
  status = text "CELL_STATUS_FREE";
}

normalize_site_detail-site_reply_of_example :
    (normalize_site_detail (site_reply_of json_names mall) ≡ mall)
    × (normalize_cell (cell_reply_of json_names cell) ≡ cell)
normalize_site_detail-site_reply_of_example =
    normalize_site_detail-site_reply_of json_names mall cell
