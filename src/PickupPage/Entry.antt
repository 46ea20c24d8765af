-- ===== src/PickupPage/Entry.antt =====
-- The number of the cell that is entered or scanned, and the error beside it.
use smart_parcel_locker.Prelude.{
  Text, text_eq, truthy, trim, true, false, not, Option, some, [], ◌≡◌, refl, ◌↔◌, ◌or_else◌, ◌or◌,
  arith, if◌then◌else◌, ◌⊎◌, inl, inr, Bool-cases,
}
use smart_parcel_locker.Prelude.Trim.{trim_again}
use smart_parcel_locker.OrderClient.{OrderDto}
use smart_parcel_locker.ScanCode.{ScanOutcome, scan_code, scanned, thrown}
use smart_parcel_locker.PickupPage.{
  PickupPage, input_code, scan_settled, code_matches, matches, code_shown, step, apply_code,
}

-- The error is shown exactly beside a code that is not empty and does not match.
abbrev pub ShowsError : PickupPage → Type 0
ShowsError s = (s.code_error ≡ true) ↔ ((truthy s.pickup_code ≡ true) × (code_matches s ≡ false))

error_iff :
    (value cell : Text)
    → ((if truthy value then not (text_eq value cell) else false) ≡ true)
      ↔ ((truthy value ≡ true) × (text_eq value cell ≡ false))
error_iff value cell = ground arith

-- After an input, where the code of an order can be entered, the code is what was entered, with no
-- spaces around it, and the error is shown exactly if it is not empty and does not match the cell.
pub step-input_code :
    (s : PickupPage) (detail target : Option Text) (order : OrderDto)
    → s.hook.order ≡ some order
    → code_shown s ≡ true
    → ShowsError (step s (input_code detail target))
      × ((step s (input_code detail target)).pickup_code ≡ trim (detail or_else target or []))
unfolding step apply_code matches
step-input_code s detail target order h shown =
    let raw = detail or_else target or [] in
    rw (shown, h, trim_again raw) (error_iff (trim raw) order.cell_no, refl)

-- A scan that was read stands in for an input; another one leaves the code and the error alone.
abbrev pub Enters : ScanOutcome → PickupPage → PickupPage → Type 0
Enters outcome s s' =
    (((scan_code outcome).is_ok ≡ true)
      × ShowsError s'
      × (s'.pickup_code ≡ (scan_code outcome).value))
    ⊎ (((scan_code outcome).is_ok ≡ false)
        × (s'.pickup_code ≡ s.pickup_code)
        × (s'.code_error ≡ s.code_error))

step-scanned :
    (s : PickupPage) (result : Option Text) (order : OrderDto)
    → s.scanning ≡ some order
    → s.hook.order ≡ some order
    → Enters (scanned result) s (step s (scan_settled (scanned result)))
unfolding step apply_code matches scan_code
step-scanned s result order p q =
    let raw = result or [] in
    elim (Bool-cases (truthy (trim raw))) [
      | inl read ↦ inl (
        read,
        rw (p, q, read, trim_again raw, trim_again raw) (error_iff (trim raw) order.cell_no),
        rw (p, read) (trim_again raw),
      )
      | inr empty ↦ inr (empty, rw (p, empty), rw (p, empty))
    ]

-- When the scan of a code for the order on the page settles, a code that was read is entered with
-- no spaces around it, and the error is shown exactly if it is not the number of the order's cell;
-- a scan that was given up or failed, or read nothing, leaves the code and the error alone.
pub step-scan_settled :
    (s : PickupPage) (outcome : ScanOutcome) (order : OrderDto)
    → s.scanning ≡ some order
    → s.hook.order ≡ some order
    → Enters outcome s (step s (scan_settled outcome))
unfolding step scan_code
step-scan_settled s (scanned result) order p q = step-scanned s result order p q
step-scan_settled s (thrown message err_msg) order p q =
    inr (ground arith, ground arith, ground arith)
