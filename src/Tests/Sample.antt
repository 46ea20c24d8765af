-- ===== src/Tests/Sample.antt =====
-- Data of the tests.
use smart_parcel_locker.Prelude.{Text, text, []}
use smart_parcel_locker.Prelude.Int.{pos}
use smart_parcel_locker.Prelude.Number.{int}
use smart_parcel_locker.Order.{OrderStatus}
use smart_parcel_locker.OrderClient.{OrderDto, FeeSnapshotDto}

abbrev pub sample_fees : FeeSnapshotDto
sample_fees = record {
  rent_fee_fen = pos 300;
  deposit_fen = pos 500;
  discount_fen = pos 0;
  total_fen = pos 800;
}

abbrev pub order_with : OrderStatus → OrderDto
order_with status = record {
  id = text "o1";
  order_no = text "N1";
  site_id = text "s1";
  site_name = text "Mall";
  cell_id = text "c1";
  cell_no = text "A01";
  size = text "CELL_SIZE_SMALL";
  status = status;
  duration_minutes = int (pos 60);
  fee_snapshot = sample_fees;
  overdue_fee_fen = pos 0;
  created_at = [];
  paid_at = [];
  deposited_at = [];
  expires_at = [];
  completed_at = [];
}

abbrev pub order_id : Text
order_id = text "o1"
