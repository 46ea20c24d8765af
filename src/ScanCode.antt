-- ===== src/ScanCode.antt =====
-- frontend/apps/miniapp/src/features/scan/scan-code.ts: the platform's scan, made uniform.
use smart_parcel_locker.Prelude.{
  ℕ, ◌+◌, Text, text, truthy, trim, Bool, true, false, ◌||◌, ◌&&◌, Option, none, some, ◌or◌, [],
  ◌∷◌, if◌then◌else◌, leb, ◌==◌,
}

pub record ScanResult : Type 0 where
  pub is_ok : Bool
  pub value : Text
  pub cancelled : Bool
  pub error : Option Text

-- How the promise of the platform's scan settles. A rejection carries the error's `message`, or
-- the thrown value as a string if it is no `Error`, and its `errMsg` if it has one.
pub data ScanOutcome : Type 0 where
  scanned : Option Text → ScanOutcome
  thrown : Text → Option Text → ScanOutcome

abbrev lower : ℕ → ℕ
lower c = if leb b'A' c && leb c b'Z' then c + 32 else c

-- `s` begins with `word`, letters of both cases taken for one; `word` is in lower case.
unfoldable pub starts_with : Text → Text → Bool
starts_with [] s = true
starts_with (w ∷ word) [] = false
starts_with (w ∷ word) (c ∷ s) = lower c == w && starts_with word s

-- `/word/i.test(s)`
unfoldable pub mentions : Text → Text → Bool
unfolding starts_with
mentions word [] = starts_with word []
mentions word (c ∷ s) = starts_with word (c ∷ s) || mentions word s

-- What the function of `createScanCode` returns.
unfoldable pub scan_code : ScanOutcome → ScanResult
unfolding mentions
scan_code (scanned result) =
    let value = trim (result or []) in
    record { is_ok = truthy value; value = value; cancelled = false; error = none }
scan_code (thrown message err_msg) =
    if mentions (text "cancel") message || mentions (text "cancel") (err_msg or [])
    then record { is_ok = false; value = []; cancelled = true; error = none }
    else record { is_ok = false; value = []; cancelled = false; error = some message }
