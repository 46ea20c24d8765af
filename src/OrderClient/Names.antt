-- ===== src/OrderClient/Names.antt =====
-- A reply may name its fields as in the proto file or in camel case.
use smart_parcel_locker.Prelude.{Option, some, none, ok, ◌≡◌}
use smart_parcel_locker.Prelude.Int.{ℤ}
use smart_parcel_locker.Prelude.Number.{IsSafe}
use smart_parcel_locker.Prelude.Decimal.{print_int}
use smart_parcel_locker.Order.Cast.{cast_status, status_text}
use smart_parcel_locker.OrderClient.{
  OrderDto, FeeSnapshotDto, RawOrderDto, RawFeeSnapshotDto, RawFen, string, to_fen, normalize_order,
  normalize_fee_snapshot,
}
use smart_parcel_locker.OrderClient.Fen.{to_fen-print_int}

pub data Naming : Type 0 where
  proto_names json_names : Naming

-- The value of a field under its name in the proto file, and under its name in camel case.
abbrev pub snake {ℓ} : {A : Type ℓ} → Naming → A → Option A
snake proto_names a = some a
snake json_names a = none

abbrev pub camel {ℓ} : {A : Type ℓ} → Naming → A → Option A
camel proto_names a = none
camel json_names a = some a

-- An int64 as protojson prints it.
abbrev int64 : ℤ → RawFen
int64 z = string (print_int z)

abbrev fees_of : Naming → FeeSnapshotDto → RawFeeSnapshotDto
fees_of n f = record {
  rent_fee_fen = snake n (int64 f.rent_fee_fen);
  rent_fee_fen_camel = camel n (int64 f.rent_fee_fen);
  deposit_fen = snake n (int64 f.deposit_fen);
  deposit_fen_camel = camel n (int64 f.deposit_fen);
  discount_fen = snake n (int64 f.discount_fen);
  discount_fen_camel = camel n (int64 f.discount_fen);
  total_fen = snake n (int64 f.total_fen);
  total_fen_camel = camel n (int64 f.total_fen);
}

-- An order as the server writes it.
abbrev pub reply_of : Naming → OrderDto → RawOrderDto
reply_of n o = record {
  id = o.id;
  order_no = snake n o.order_no;
  order_no_camel = camel n o.order_no;
  site_id = snake n o.site_id;
  site_id_camel = camel n o.site_id;
  site_name = snake n o.site_name;
  site_name_camel = camel n o.site_name;
  cell_id = snake n o.cell_id;
  cell_id_camel = camel n o.cell_id;
  cell_no = snake n o.cell_no;
  cell_no_camel = camel n o.cell_no;
  size = some o.size;
  status = some (status_text o.status);
  duration_minutes = snake n o.duration_minutes;
  duration_minutes_camel = camel n o.duration_minutes;
  fee_snapshot = snake n (fees_of n o.fee_snapshot);
  fee_snapshot_camel = camel n (fees_of n o.fee_snapshot);
  overdue_fee_fen = snake n (int64 o.overdue_fee_fen);
  overdue_fee_fen_camel = camel n (int64 o.overdue_fee_fen);
  created_at = snake n o.created_at;
  created_at_camel = camel n o.created_at;
  paid_at = snake n o.paid_at;
  paid_at_camel = camel n o.paid_at;
  deposited_at = snake n o.deposited_at;
  deposited_at_camel = camel n o.deposited_at;
  expires_at = snake n o.expires_at;
  expires_at_camel = camel n o.expires_at;
  completed_at = snake n o.completed_at;
  completed_at_camel = camel n o.completed_at;
}

-- Amounts that doubles hold exactly, and a status that is one of the nine or a plain string.
pub record IsRepresentable (o : OrderDto) : Type 0 where
  pub rent : IsSafe o.fee_snapshot.rent_fee_fen
  pub deposit : IsSafe o.fee_snapshot.deposit_fen
  pub discount : IsSafe o.fee_snapshot.discount_fen
  pub total : IsSafe o.fee_snapshot.total_fen
  pub overdue : IsSafe o.overdue_fee_fen
  pub status : cast_status (status_text o.status) ≡ o.status

amount : (z : ℤ) → IsSafe z → to_fen (some (int64 z)) ≡ ok z
amount z h = (to_fen-print_int z h).0

normalize_fee_snapshot-fees_of :
    (n : Naming) (f : FeeSnapshotDto)
    → IsSafe f.rent_fee_fen
    → IsSafe f.deposit_fen
    → IsSafe f.discount_fen
    → IsSafe f.total_fen
    → normalize_fee_snapshot (some (fees_of n f)) ≡ ok f
unfolding normalize_fee_snapshot
normalize_fee_snapshot-fees_of proto_names f a b c d =
    rw (
      amount f.rent_fee_fen a,
      amount f.deposit_fen b,
      amount f.discount_fen c,
      amount f.total_fen d,
    )
normalize_fee_snapshot-fees_of json_names f a b c d =
    rw (
      amount f.rent_fee_fen a,
      amount f.deposit_fen b,
      amount f.discount_fen c,
      amount f.total_fen d,
    )

-- An order is read back from the server's reply, in either naming, if its amounts are safe integers
-- and the cast of its status gives the status.
pub normalize_order-reply_of :
    (n : Naming) (o : OrderDto) → IsRepresentable o → normalize_order (reply_of n o) ≡ ok o
unfolding normalize_order
normalize_order-reply_of proto_names o h = rw (
  normalize_fee_snapshot-fees_of proto_names o.fee_snapshot h.rent h.deposit h.discount h.total,
  amount o.overdue_fee_fen h.overdue,
  h.status,
)
normalize_order-reply_of json_names o h = rw (
  normalize_fee_snapshot-fees_of json_names o.fee_snapshot h.rent h.deposit h.discount h.total,
  amount o.overdue_fee_fen h.overdue,
  h.status,
)
