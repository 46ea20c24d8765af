-- ===== src/Tests/Pages.antt =====
-- Runs of the pages for a payment, an overdue fee and the details of an order.
use smart_parcel_locker.Prelude.{
  ◌+◌, text, true, false, List, [], ◌∷◌, ok, err, plain_error, ◌≡◌, ◌≢◌, some, refl, ◌⊎◌,
}
use smart_parcel_locker.Order.{
  available_order_actions, OrderAction, pending_payment, paid, overdue, cancelled, completed, pay,
  cancel,
}
use smart_parcel_locker.OrderClient.{OrderDto}
use smart_parcel_locker.OrderHook.{shown, reload, initial_hook, settle_reload, order_action_route}
use smart_parcel_locker.Prelude.Uri.{encode_uri_component}
use smart_parcel_locker.PaymentPage
use smart_parcel_locker.PaymentPage.Laws.{payment_run-payments, Sends as SendsPayment}
use smart_parcel_locker.OverduePage
use smart_parcel_locker.OverduePage.Laws.{overdue_run-settlements, Sends as SendsSettlement}
use smart_parcel_locker.DetailPage
use smart_parcel_locker.DetailPage.Laws.{
  detail_run-cancellations, step-visited, IsOffered, Visits, Sends as SendsCancellation,
}
use smart_parcel_locker.DetailPage.Polling.{IsOver, ticks, run-ticks}
use smart_parcel_locker.Tests.Sample.{order_with, order_id}

abbrev payable : OrderDto
payable = order_with pending_payment

abbrev payment_shown : PaymentPage.PaymentPage
payment_shown =
    PaymentPage.run true (PaymentPage.start order_id)
      (PaymentPage.Event.load_settled (ok payable) ∷ [])

abbrev payment : List PaymentPage.Event
payment =
    PaymentPage.Event.load_settled (ok payable)
    ∷ PaymentPage.Event.tap_pay
    ∷ PaymentPage.Event.payment_settled (ok (order_with paid))
    ∷ []

payment_run-payments_example : SendsPayment true payment_shown PaymentPage.Event.tap_pay
payment_run-payments_example =
    payment_run-payments true order_id (PaymentPage.Event.load_settled (ok payable) ∷ [])
      PaymentPage.Event.tap_pay

payment_sent_once : (PaymentPage.run true (PaymentPage.start order_id) payment).payments ≡ 1
unfolding PaymentPage.run PaymentPage.step PaymentPage.start text
payment_sent_once = refl

payment_not_sent : (PaymentPage.run false (PaymentPage.start order_id) payment).payments ≡ 0
unfolding PaymentPage.run PaymentPage.step PaymentPage.start text
payment_not_sent = refl

-- The text for a payment that has succeeded is shown for a cancelled order, too.
cancelled_shown_as_paid :
    PaymentPage.pay_area true (order_with cancelled) false
    ≡ PaymentPage.PayArea.hint (text "支付成功，请前往柜机存入物品")
unfolding PaymentPage.pay_area
cancelled_shown_as_paid = refl

abbrev late : OrderDto
late = order_with overdue

abbrev overdue_shown : OverduePage.OverduePage
overdue_shown =
    OverduePage.run true (OverduePage.start order_id)
      (OverduePage.Event.reload_settled (ok late) ∷ [])

abbrev settlement : List OverduePage.Event
settlement =
    OverduePage.Event.reload_settled (ok late)
    ∷ OverduePage.Event.tap_settle
    ∷ OverduePage.Event.settlement_settled (ok late)
    ∷ OverduePage.Event.own_reload_settled (err (plain_error (text "no reply")))
    ∷ []

overdue_run-settlements_example : SendsSettlement true overdue_shown OverduePage.Event.tap_settle
overdue_run-settlements_example =
    overdue_run-settlements true order_id (OverduePage.Event.reload_settled (ok late) ∷ [])
      OverduePage.Event.tap_settle

settlement_sent_once :
    (OverduePage.run true (OverduePage.start order_id) settlement).settlements ≡ 1
unfolding OverduePage.run OverduePage.step OverduePage.start text reload initial_hook settle_reload
settlement_sent_once = refl

abbrev detail_shown : DetailPage.DetailPage
detail_shown =
    DetailPage.run (DetailPage.start order_id) (DetailPage.Event.reload_settled (ok payable) ∷ [])

abbrev cancelled_order : List DetailPage.Event
cancelled_order =
    DetailPage.Event.reload_settled (ok payable)
    ∷ DetailPage.Event.tap cancel
    ∷ DetailPage.Event.tick
    ∷ DetailPage.Event.cancel_settled (ok payable)
    ∷ DetailPage.Event.reload_settled (ok payable)
    ∷ DetailPage.Event.own_reload_settled (ok payable)
    ∷ []

detail_run-cancellations_example : SendsCancellation detail_shown (DetailPage.Event.tap cancel)
detail_run-cancellations_example =
    detail_run-cancellations order_id (DetailPage.Event.reload_settled (ok payable) ∷ [])
      (DetailPage.Event.tap cancel)

step-visited_example :
    ((DetailPage.step detail_shown (DetailPage.Event.tap pay)).visited ≡ detail_shown.visited)
    ⊎ ((a : OrderAction) × (DetailPage.Event.tap pay ≡ DetailPage.Event.tap a)
        × IsOffered (shown detail_shown.hook) a
        × Visits detail_shown (DetailPage.step detail_shown (DetailPage.Event.tap pay)) a)
step-visited_example = step-visited detail_shown (DetailPage.Event.tap pay)

pay_visited :
    (DetailPage.step detail_shown (DetailPage.Event.tap pay)).visited
    ≡ text "/pages/payment/index?orderId=o1" ∷ []
unfolding DetailPage.run DetailPage.step DetailPage.start text reload initial_hook settle_reload
    available_order_actions order_action_route encode_uri_component
pay_visited = refl

run-ticks_example :
    (IsOver detail_shown.hook.order
      → (DetailPage.run detail_shown (ticks 3)).hook.pending ≡ detail_shown.hook.pending)
    × ((o : OrderDto)
        → detail_shown.hook.order ≡ some o
        → o.status ≢ completed
        → o.status ≢ cancelled
        → (DetailPage.run detail_shown (ticks 3)).hook.pending ≡ detail_shown.hook.pending + 3)
unfolding DetailPage.run DetailPage.step DetailPage.start text reload initial_hook settle_reload
run-ticks_example = run-ticks detail_shown 3 refl

-- Three ticks over an order that is not paid send three requests, and none over a cancelled one.
polled_while_open : (DetailPage.run detail_shown (ticks 3)).hook.pending ≡ 3
unfolding DetailPage.run DetailPage.step DetailPage.start text reload initial_hook settle_reload
polled_while_open = refl

not_polled_when_cancelled :
    (DetailPage.run
      (DetailPage.start order_id)
      (DetailPage.Event.reload_settled (ok (order_with cancelled)) ∷ ticks 3)).hook.pending
    ≡ 0
unfolding DetailPage.run DetailPage.step DetailPage.start text reload initial_hook settle_reload
not_polled_when_cancelled = refl
