-- ===== src/OrderClient.antt =====
-- frontend/packages/api-client/src/order-client.ts: the orders of the server's replies, made
-- uniform, and the requests of each method.
pub mod Fen
pub mod Names
use smart_parcel_locker.Prelude.{
  ℕ, Text, text, Option, none, some, ◌or◌, ◌or_else◌, List, [], ◌∷◌, ◌++◌, Result, ok, err, ◌>>=◌,
  plain_error, map_result,
}
use smart_parcel_locker.Prelude.Int.{ℤ, pos}
use smart_parcel_locker.Prelude.Number.{Number, int, other, parse_int}
use smart_parcel_locker.Prelude.Uri.{encode_uri_component}
use smart_parcel_locker.Order.{OrderStatus}
use smart_parcel_locker.Order.Cast.{cast_status}
use smart_parcel_locker.Http.{RequestInput, RequestFn, Method, get, post, Scalar, str, num}

pub record FeeSnapshotDto : Type 0 where
  pub rent_fee_fen : ℤ
  pub deposit_fen : ℤ
  pub discount_fen : ℤ
  pub total_fen : ℤ

pub record OrderDto : Type 0 where
  pub id : Text
  pub order_no : Text
  pub site_id : Text
  pub site_name : Text
  pub cell_id : Text
  pub cell_no : Text
  pub size : Text
  pub status : OrderStatus
  pub duration_minutes : Number
  pub fee_snapshot : FeeSnapshotDto
  pub overdue_fee_fen : ℤ
  pub created_at : Text
  pub paid_at : Text
  pub deposited_at : Text
  pub expires_at : Text
  pub completed_at : Text

-- `string | number`
pub data RawFen : Type 0 where
  string : Text → RawFen
  number : Number → RawFen

-- `if (!Number.isInteger(parsed)) throw …`
integer_or_throw : Text → Number → Result ℤ
integer_or_throw shown (int z) = ok z
integer_or_throw shown (other _) = err (plain_error (text "invalid integer fen amount: " ++ shown))

-- `toFen`
unfoldable pub to_fen : Option RawFen → Result ℤ
unfolding integer_or_throw
to_fen none = ok (pos 0)
to_fen (some (string [])) = ok (pos 0)
to_fen (some (string (c ∷ s))) = integer_or_throw (c ∷ s) (parse_int (c ∷ s))
to_fen (some (number (int z))) = ok z
to_fen (some (number (other shown))) = integer_or_throw shown (other shown)

pub record RawFeeSnapshotDto : Type 0 where
  pub rent_fee_fen : Option RawFen
  pub rent_fee_fen_camel : Option RawFen
  pub deposit_fen : Option RawFen
  pub deposit_fen_camel : Option RawFen
  pub discount_fen : Option RawFen
  pub discount_fen_camel : Option RawFen
  pub total_fen : Option RawFen
  pub total_fen_camel : Option RawFen

-- `orderNo` is `order_no_camel`, and so on.
pub record RawOrderDto : Type 0 where
  pub id : Text
  pub order_no : Option Text
  pub order_no_camel : Option Text
  pub site_id : Option Text
  pub site_id_camel : Option Text
  pub site_name : Option Text
  pub site_name_camel : Option Text
  pub cell_id : Option Text
  pub cell_id_camel : Option Text
  pub cell_no : Option Text
  pub cell_no_camel : Option Text
  pub size : Option Text
  pub status : Option Text
  pub duration_minutes : Option Number
  pub duration_minutes_camel : Option Number
  pub fee_snapshot : Option RawFeeSnapshotDto
  pub fee_snapshot_camel : Option RawFeeSnapshotDto
  pub overdue_fee_fen : Option RawFen
  pub overdue_fee_fen_camel : Option RawFen
  pub created_at : Option Text
  pub created_at_camel : Option Text
  pub paid_at : Option Text
  pub paid_at_camel : Option Text
  pub deposited_at : Option Text
  pub deposited_at_camel : Option Text
  pub expires_at : Option Text
  pub expires_at_camel : Option Text
  pub completed_at : Option Text
  pub completed_at_camel : Option Text

-- `normalizeFeeSnapshot`
unfoldable pub normalize_fee_snapshot : Option RawFeeSnapshotDto → Result FeeSnapshotDto
normalize_fee_snapshot none = do
  rent ← to_fen none
  deposit ← to_fen none
  discount ← to_fen none
  total ← to_fen none
  ok (record {
    rent_fee_fen = rent;
    deposit_fen = deposit;
    discount_fen = discount;
    total_fen = total;
  })
normalize_fee_snapshot (some raw) = do
  rent ← to_fen (raw.rent_fee_fen or_else raw.rent_fee_fen_camel)
  deposit ← to_fen (raw.deposit_fen or_else raw.deposit_fen_camel)
  discount ← to_fen (raw.discount_fen or_else raw.discount_fen_camel)
  total ← to_fen (raw.total_fen or_else raw.total_fen_camel)
  ok (record {
    rent_fee_fen = rent;
    deposit_fen = deposit;
    discount_fen = discount;
    total_fen = total;
  })

-- `normalizeOrder`
unfoldable pub normalize_order : RawOrderDto → Result OrderDto
normalize_order raw = do
  fees ← normalize_fee_snapshot (raw.fee_snapshot or_else raw.fee_snapshot_camel)
  overdue ← to_fen (raw.overdue_fee_fen or_else raw.overdue_fee_fen_camel)
  ok (record {
    id = raw.id;
    order_no = raw.order_no or_else raw.order_no_camel or [];
    site_id = raw.site_id or_else raw.site_id_camel or [];
    site_name = raw.site_name or_else raw.site_name_camel or [];
    cell_id = raw.cell_id or_else raw.cell_id_camel or [];
    cell_no = raw.cell_no or_else raw.cell_no_camel or [];
    size = raw.size or text "CELL_SIZE_UNSPECIFIED";
    status = cast_status (raw.status or text "ORDER_STATUS_UNSPECIFIED");
    duration_minutes = raw.duration_minutes or_else raw.duration_minutes_camel or int (pos 0);
    fee_snapshot = fees;
    overdue_fee_fen = overdue;
    created_at = raw.created_at or_else raw.created_at_camel or [];
    paid_at = raw.paid_at or_else raw.paid_at_camel or [];
    deposited_at = raw.deposited_at or_else raw.deposited_at_camel or [];
    expires_at = raw.expires_at or_else raw.expires_at_camel or [];
    completed_at = raw.completed_at or_else raw.completed_at_camel or [];
  })

pub record OrderReply : Type 0 where
  pub order : Option RawOrderDto

pub record OrdersReply : Type 0 where
  pub orders : Option (List RawOrderDto)

-- `if (!result.order) throw …; return normalizeOrder(result.order)`
unfoldable pub order_of_reply : OrderReply → Result OrderDto
order_of_reply reply = elim (reply.order) [
  | none ↦ err (plain_error (text "missing order in reply"))
  | some raw ↦ normalize_order raw
]

pub record CreateOrderInput : Type 0 where
  pub site_id : Text
  pub size : Text
  pub duration_minutes : Number

-- The client over `request`, at the two types of its replies.
module _ (request : RequestFn OrderReply) (request_list : RequestFn OrdersReply) where
  -- `postOrderAction`
  unfoldable pub post_order_action : Text → Result OrderDto
  post_order_action path = do
    result ← request (record { path = path; method = some post; query = none; body = some [] })
    order_of_reply result

  unfoldable pub create_order : CreateOrderInput → Result OrderDto
  create_order input = do
    result ← request (record {
      path = text "/v1/orders";
      method = some post;
      query = none;
      body = some (
          (text "site_id", str input.site_id)
          ∷ (text "size", str input.size)
          ∷ (text "duration_minutes", num input.duration_minutes)
          ∷ []);
    })
    order_of_reply result

  unfoldable pub get_order : Text → Result OrderDto
  get_order order_id = do
    id ← encode_uri_component order_id
    result ←
        request
          (record { path = text "/v1/orders/" ++ id; method = none; query = none; body = none })
    order_of_reply result

  unfoldable pub list_orders : Result (List OrderDto)
  list_orders = do
    result ←
        request_list (record { path = text "/v1/orders"; method = none; query = none; body = none })
    map_result normalize_order (result.orders or [])

  unfoldable pub cancel_order : Text → Result OrderDto
  unfolding post_order_action
  cancel_order order_id = do
    id ← encode_uri_component order_id
    post_order_action (text "/v1/orders/" ++ (id ++ text "/cancellations"))

  unfoldable pub open_deposit_door : Text → Result OrderDto
  unfolding post_order_action
  open_deposit_door order_id = do
    id ← encode_uri_component order_id
    post_order_action (text "/v1/orders/" ++ (id ++ text "/deposit-door-requests"))

  unfoldable pub open_pickup_door : Text → Result OrderDto
  unfolding post_order_action
  open_pickup_door order_id = do
    id ← encode_uri_component order_id
    post_order_action (text "/v1/orders/" ++ (id ++ text "/pickup-door-requests"))

  unfoldable pub confirm_development_payment : Text → Result OrderDto
  unfolding post_order_action
  confirm_development_payment order_id = do
    id ← encode_uri_component order_id
    post_order_action (text "/v1/development/orders/" ++ (id ++ text "/payment-confirmations"))

  unfoldable pub settle_overdue : Text → Result OrderDto
  unfolding post_order_action
  settle_overdue order_id = do
    id ← encode_uri_component order_id
    post_order_action (text "/v1/development/orders/" ++ (id ++ text "/overdue-payments"))
