-- ===== src/Figma/Requests.antt =====
-- tools/figma-plugin/src/stages/components.ts: the resources that a stage asks the port for, and those
-- of the stage that draws the components. The properties stand in the order of the source.
use smart_parcel_locker.Prelude.{
  ℕ, suc, ◌+◌, ◌*◌, ◌/◌, ◌%◌, Text, text, text_eq, Bool, any, List, [], ◌∷◌, ◌++◌, map,
  if◌then◌else◌,
}
use smart_parcel_locker.Figma.Color.{Fraction, RgbValue}
use smart_parcel_locker.Figma.Catalog.{PageItem, design_system, component_keys}

-- The values of the properties, but `undefined`, which is left out: a layout has a direction, a gap and a padding.
pub data Value : Type 0 where
  number : ℕ → Value
  word : Text → Value
  flag : Bool → Value
  words : List Text → Value
  layout : Text → ℕ → ℕ → Value
  variants : List (List (Text × Text)) → Value
  color : RgbValue → Value
  fraction : Fraction → Value

-- `ResourceSpec`
pub record ResourceSpec : Type 0 where
  pub key : Text
  pub name : Text
  pub properties : List (Text × Value)

-- The calls of the port.
pub data Request : Type 0 where
  upsert_page upsert_variable_collection upsert_variable : ResourceSpec → Request
  upsert_text_style upsert_effect_style : ResourceSpec → Request
  upsert_component_family upsert_screen : ResourceSpec → Request

unfoldable pub page_request : PageItem → Request
page_request page = upsert_page (record { key = page.key; name = page.name; properties = [] })

-- `entries()`, from an index on
unfoldable pub indexed : {A : Type 0} → ℕ → List A → List (ℕ × A)
indexed i [] = []
indexed i (a ∷ rest) = (i, a) ∷ indexed (suc i) rest

is_one_of : List Text → Text → Bool
is_one_of names key = any (text_eq key) names

-- `DISPLAY_NAMES`
unfoldable pub display_name : Text → Text
display_name key =
    if text_eq key (text "button")
    then text "Button"
    else if text_eq key (text "icon-button")
    then text "Icon Button"
    else if text_eq key (text "input")
    then text "Input"
    else if text_eq key (text "search")
    then text "Search"
    else if text_eq key (text "select")
    then text "Select"
    else if text_eq key (text "status-pill")
    then text "Status Pill"
    else if text_eq key (text "alert")
    then text "Alert"
    else if text_eq key (text "result")
    then text "Result"
    else if text_eq key (text "empty-state")
    then text "Empty State"
    else if text_eq key (text "error-state")
    then text "Error State"
    else if text_eq key (text "skeleton")
    then text "Skeleton"
    else if text_eq key (text "card")
    then text "Card"
    else if text_eq key (text "site-card")
    then text "Site Card"
    else if text_eq key (text "locker-size-card")
    then text "Locker Size Card"
    else if text_eq key (text "order-card")
    then text "Order Card"
    else if text_eq key (text "modal")
    then text "Modal"
    else if text_eq key (text "bottom-sheet")
    then text "Bottom Sheet"
    else if text_eq key (text "confirm-dialog")
    then text "Confirm Dialog"
    else if text_eq key (text "miniapp-top-bar")
    then text "Mini App Top Bar"
    else if text_eq key (text "miniapp-bottom-tab-bar")
    then text "Mini App Bottom Tab Bar"
    else if text_eq key (text "admin-sidebar")
    then text "Admin Sidebar"
    else if text_eq key (text "admin-header")
    then text "Admin Header"
    else if text_eq key (text "filter-bar")
    then text "Filter Bar"
    else if text_eq key (text "data-table")
    then text "Data Table"
    else if text_eq key (text "pagination")
    then text "Pagination"
    else []

state_variants : List Text → List (List (Text × Text))
state_variants names = map (λ (name : Text). (text "State", name) ∷ []) names

button_variant : Text → Text → List (Text × Text)
button_variant style state =
    (text "Style", style) ∷ (text "Size", text "Medium") ∷ (text "State", state) ∷ []

-- `variantsFor`
unfoldable pub variants_for : Text → List (List (Text × Text))
unfolding is_one_of state_variants button_variant
variants_for key =
    if is_one_of (text "button" ∷ text "icon-button" ∷ []) key
    then button_variant (text "Primary") (text "Default")
      ∷ button_variant (text "Primary") (text "Loading")
      ∷ button_variant (text "Primary") (text "Disabled")
      ∷ button_variant (text "Secondary") (text "Default")
      ∷ []
    else if is_one_of (text "input" ∷ text "search" ∷ text "select" ∷ []) key
    then state_variants
        (text "Default" ∷ text "Focus" ∷ text "Filled" ∷ text "Error" ∷ text "Disabled" ∷ [])
    else if is_one_of
        (text "site-card" ∷ text "locker-size-card" ∷ text "order-card" ∷ text "card" ∷ []) key
    then state_variants (text "Default" ∷ text "Selected" ∷ text "Disabled" ∷ [])
    else state_variants (text "Default" ∷ [])

visual : ℕ → ℕ → Text → List (Text × Value)
visual width height kind =
    (text "width", number width)
    ∷ (text "height", number height)
    ∷ (text "visualKind", word kind)
    ∷ []

-- `visualSpec`
unfoldable pub visual_spec : Text → List (Text × Value)
unfolding is_one_of visual
visual_spec key =
    if text_eq key (text "button")
    then visual 160 48 (text "button")
    else if text_eq key (text "icon-button")
    then visual 48 48 (text "icon-button")
    else if is_one_of (text "input" ∷ text "search" ∷ text "select" ∷ []) key
    then visual 320 96 key
    else if is_one_of
        (text "site-card" ∷ text "locker-size-card" ∷ text "order-card" ∷ text "card" ∷ []) key
    then visual 360 180 key
    else if text_eq key (text "data-table")
    then visual 640 280 (text "data-table")
    else if is_one_of (text "admin-header" ∷ text "filter-bar" ∷ []) key
    then visual 640 96 key
    else if text_eq key (text "admin-sidebar")
    then visual 240 360 key
    else if is_one_of (text "modal" ∷ text "bottom-sheet" ∷ text "confirm-dialog" ∷ []) key
    then visual 420 240 key
    else if is_one_of (text "miniapp-top-bar" ∷ text "miniapp-bottom-tab-bar" ∷ []) key
    then visual 375 80 key
    else visual 280 112 key

component_request : ℕ × Text → Request
unfolding display_name variants_for visual_spec
component_request (index, key) = upsert_component_family (record {
  key = text "component/" ++ key;
  name = display_name key;
  properties =
      (text "pageKey", word design_system.key)
      ∷ (text "x", number (1600 + index % 2 * 720))
      ∷ (text "y", number (80 + index / 2 * 340))
      ∷ (visual_spec key
          ++ (text "variants", variants (variants_for key))
            ∷ (text "layout", layout (text "HORIZONTAL") 12 12)
            ∷ (
              text "tokens",
              words (
                  text "color/action/primary"
                  ∷ text "color/text/primary"
                  ∷ text "space/12"
                  ∷ text "radius/8"
                  ∷ []),
            )
            ∷ []);
})

-- The requests of `runComponents`
unfoldable pub component_requests : List Request
unfolding page_request indexed component_request
component_requests = page_request design_system ∷ map component_request (indexed 0 component_keys)
