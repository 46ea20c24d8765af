-- ===== src/SiteView.antt =====
-- frontend/packages/domain-ui/src/site.ts: what the card of a site shows; the card itself is
-- frontend/apps/miniapp/src/features/sites/site-card.tsx.
pub mod Distance
use smart_parcel_locker.Prelude.{
  ℕ, zero, suc, ◌+◌, ◌-◌, ◌*◌, ◌/◌, ◌%◌, ◌^◌, Text, text, Bool, true, false, Option, none, some,
  List, [], ◌∷◌, ◌++◌, if◌then◌else◌, ltb,
}
use smart_parcel_locker.Prelude.Int.{ℤ, pos, negsuc, ◌+ℤ◌}
use smart_parcel_locker.Prelude.Number.{Number, int, other, to_number, nearest}
use smart_parcel_locker.Prelude.Decimal.{print, print_int}
use smart_parcel_locker.SiteClient.{SiteSummaryDto, CellAvailabilityDto}
use smart_parcel_locker.Components.{PillTone, green, amber}
use smart_parcel_locker.Prelude.Floats.{Floats, shown_number, add, less, less_than_one_thousand}

pub record SiteCardView : Type 0 where
  pub id : Text
  pub name : Text
  pub address : Text
  pub distance_label : Text
  pub availability_label : Text
  pub status_label : Text
  pub status_tone : PillTone

-- The bits behind the point of the double nearest to n / 1000, which has 53 in all; n / 1000 is
-- at least 1, so there are 52 at most.
point_bits : ℕ → ℕ → ℕ
point_bits zero n = zero
point_bits (suc e) n =
    let fewer = point_bits e n in if ltb n (1000 * 2 ^ (52 - e)) then suc e else fewer

-- The double nearest to n / 1000, times 2 ^ e.
scaled_quotient : ℕ → ℕ → ℕ
scaled_quotient e n = nearest 1000 (n * 2 ^ e) / 1000

-- The tenths that `(n / 1000).toFixed(1)` shows: those nearest to the double, the larger of two.
tenths_at : ℕ → ℕ → ℕ
unfolding scaled_quotient
tenths_at e n = (20 * scaled_quotient e n + 2 ^ e) / (2 * 2 ^ e)

unfoldable pub tenths : ℕ → ℕ
unfolding tenths_at point_bits
tenths n = tenths_at (point_bits 52 n) n

kilometres : ℕ → Text
unfolding tenths
kilometres n = print (tenths n / 10) ++ (b'.' ∷ (print (tenths n % 10) ++ text "km"))

metres : Number → Text
unfolding shown_number
metres d = shown_number d ++ text "m"

module _ (f : Floats) where
  -- `distanceLabel`
  unfoldable pub distance_label : Option Number → Text
  unfolding kilometres metres
  distance_label none = text "距离未知"
  distance_label (some (int (pos n))) = if ltb n 1000 then metres (int (pos n)) else kilometres n
  distance_label (some (int (negsuc n))) = metres (int (negsuc n))
  distance_label (some (other shown)) =
      if less_than_one_thousand f (other shown)
      then metres (other shown)
      else f.kilometres_of_fraction shown ++ text "km"

  -- `availability.reduce((sum, item) => sum + item.available_count, sum)`
  unfoldable pub available_from : Number → List CellAvailabilityDto → Number
  available_from sum [] = sum
  available_from sum (item ∷ rest) = available_from (add f sum item.available_count) rest

  unfoldable pub available_cells : List CellAvailabilityDto → Number
  available_cells items = available_from (int (pos 0)) items

  -- `toSiteCardView`
  unfoldable pub to_site_card_view : SiteSummaryDto → SiteCardView
  unfolding distance_label available_cells shown_number
  to_site_card_view site =
      let cells = available_cells site.availability in
      let free = less f (int (pos 0)) cells in
      record {
        id = site.id;
        name = site.name;
        address = site.address;
        distance_label = distance_label site.distance_m;
        availability_label = text "可用" ++ (shown_number cells ++ text "格");
        status_label = if free then text "有空柜" else text "暂无空柜";
        status_tone = if free then green else amber;
      }

-- `SiteCard`: what stands on the card. A tap hands the id of the site to `onSelect`.
pub record SiteCard : Type 0 where
  pub name : Text
  pub pill : Text × PillTone
  pub meta : Text
  pub address : Text
  pub selects : Text

unfoldable pub site_card : SiteCardView → SiteCard
site_card site = record {
  name = site.name;
  pill = (site.status_label, site.status_tone);
  meta = site.distance_label ++ (text " · " ++ site.availability_label);
  address = site.address;
  selects = site.id;
}
