-- ===== src/Figma/Foundations/Marker.antt =====
-- When the stage of the tokens is marked as complete.
use smart_parcel_locker.Prelude.{
  ap₂, Text, text_eq, text_eq_iff, Bool, true, Bool-cases, ◌&&◌, any, All, List, [], ◌∷◌, ok,
  >>=-eq-ok, Memᴰ, ◌≡◌, sym, inl, inr, arith,
}
use smart_parcel_locker.Figma.{foundations}
use smart_parcel_locker.Figma.Requests.{Request}
use smart_parcel_locker.Figma.Stages.{FigmaPort, FontDescriptor}
use smart_parcel_locker.Figma.Stages.Marker.{begin-IsComplete, IsComplete}
use smart_parcel_locker.Figma.Foundations.{
  same_font, missing_fonts, required_fonts, none_or_throw, check_fonts, foundation_requests,
  run_foundations,
}

both : (a b : Bool) → (a && b) ≡ true → (a ≡ true) × (b ≡ true)
both a b h = ground arith

font_eq : (a b : FontDescriptor) → same_font a b ≡ true → a ≡ b
unfolding same_font
font_eq a b h =
    let (family, style) = both (text_eq b.family a.family) (text_eq b.style a.style) h in
    let same_family : b.family ≡ a.family = (text_eq_iff b.family a.family).0 family in
    let same_style : b.style ≡ a.style = (text_eq_iff b.style a.style).0 style in
    ap₂ (λ (f : Text) (s : Text). record { family = f; style = s }) (sym same_family)
      (sym same_style)

found :
    (font : FontDescriptor) (fonts : List FontDescriptor)
    → any (same_font font) fonts ≡ true
    → Memᴰ font fonts
found font [] h = cc (h)
found font (other ∷ rest) h = elim (Bool-cases (same_font font other)) [
  | inl here ↦ Memᴰ.head (font_eq font other here)
  | inr not_here ↦ Memᴰ.tail (found font rest (rw not_here at h))
]

All-found :
    (available required : List FontDescriptor)
    → none_or_throw (missing_fonts available required) ≡ ok tt
    → All (λ (font : FontDescriptor). Memᴰ font available) required
unfolding missing_fonts
All-found available [] h = tt
All-found available (font ∷ rest) h = elim (Bool-cases (any (same_font font) available)) [
  | inl here ↦ (found font available here, All-found available rest (rw here at h))
  | inr missing ↦ cc (rw missing at h)
]

-- The stage of the tokens is marked as complete only where every font that it needs was available,
-- the port answered every request in turn, and no answer is a conflict or an error; the marker is
-- set on the file that the last request left, and the outcome is the report of exactly these
-- answers, or the error with which the port rejected the marker.
pub run_foundations-marked :
    {S : Type 0} (port : FigmaPort S Request) (file : S)
    → (run_foundations port file).marked ≡ true
    → ((fonts : List FontDescriptor) × (port.list_available_fonts file ≡ ok fonts)
        × All (λ (font : FontDescriptor). Memᴰ font fonts) required_fonts)
      × IsComplete port foundations foundation_requests file (run_foundations port file)
unfolding run_foundations check_fonts
run_foundations-marked port file marked =
    let (ready, complete) =
      begin-IsComplete port foundations foundation_requests file (check_fonts port file) marked in
    let (fonts, listed, none_missing) = >>=-eq-ok (port.list_available_fonts file) _ ready in
    ((fonts, listed, All-found fonts required_fonts none_missing), complete)
