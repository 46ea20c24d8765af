-- ===== src/Figma/Drawing/Component.antt =====
-- tools/figma-plugin/src/figma/adapter.ts: the contents of a component, by its kind. Its fonts are
-- loaded, and every child that it had is removed.
use smart_parcel_locker.Prelude.{
  ok, Result, ℕ, Text, text, text_eq, Bool, true, ◌||◌, List, [], ◌∷◌, ◌++◌, if◌then◌else◌,
}
use smart_parcel_locker.Figma.Requests.{Value, number, word, words}
use smart_parcel_locker.Figma.Drawing.Samples.{
  ink, grey, blue, white, choose, one_of, ellipse, bold, regular, field_children, card_children,
  table_children, sidebar_children, state_content, dialog_children, bar_children, header_children,
}
use smart_parcel_locker.Figma.Drawing.Screen.{Drawn, with_font}
use smart_parcel_locker.Figma.Stages.{Done}
use smart_parcel_locker.Figma.Drawing.{Node, without, tint, fixed, padding, size, text_child}

-- The new children of a component, by its kind.
unfoldable pub component_children : Text → Text → List Node
unfolding ellipse field_children card_children table_children sidebar_children state_content
    dialog_children bar_children header_children
component_children kind name =
    if text_eq kind (text "button")
    then text_child (text "立即寄存") 15 bold white ∷ []
    else if text_eq kind (text "icon-button")
    then ellipse 18 blue ∷ []
    else if one_of kind (text "input" ∷ text "search" ∷ text "select" ∷ [])
    then field_children kind
    else if one_of kind
        (text "site-card" ∷ text "locker-size-card" ∷ text "order-card" ∷ text "card" ∷ [])
    then card_children kind
    else if text_eq kind (text "data-table")
    then table_children
    else if text_eq kind (text "admin-sidebar")
    then sidebar_children
    else if one_of kind (
        text "status-pill"
        ∷ text "alert"
        ∷ text "result"
        ∷ text "empty-state"
        ∷ text "error-state"
        ∷ text "skeleton"
        ∷ [])
    then state_content kind
    else if one_of kind (text "modal" ∷ text "bottom-sheet" ∷ text "confirm-dialog" ∷ [])
    then dialog_children kind
    else if one_of kind (text "miniapp-top-bar" ∷ text "miniapp-bottom-tab-bar" ∷ [])
    then bar_children kind
    else if one_of kind (text "admin-header" ∷ text "filter-bar" ∷ text "pagination" ∷ [])
    then header_children kind
    else text_child name 16 bold ink
      ∷ text_child (text "Default · Loading · Disabled") 12 regular grey
      ∷ []

-- The alignment that the kind sets.
abbrev alignment : Text → Text → List (Text × Value)
alignment primary counter =
    (text "primaryAxisAlignItems", word primary) ∷ (text "counterAxisAlignItems", word counter) ∷ []

is_button : Text → Bool
is_button kind = one_of kind (text "button" ∷ text "icon-button" ∷ [])

is_bar : Text → Bool
is_bar kind = one_of kind (
    text "miniapp-top-bar"
    ∷ text "miniapp-bottom-tab-bar"
    ∷ text "admin-header"
    ∷ text "filter-bar"
    ∷ text "pagination"
    ∷ [])

-- The properties that `renderComponent` sets, the last value of each; no paint is `words []`.
unfoldable pub component_look : ℕ → ℕ → Text → List (Text × Value)
unfolding is_button is_bar
component_look width height kind =
    (
      text "layoutMode",
      word (if is_button kind || is_bar kind then text "HORIZONTAL" else text "VERTICAL"),
    )
    ∷ (fixed
        ++ (size width height
            ++ (padding 16 16
                ++ (text "itemSpacing", number 10)
                  ∷ (text "cornerRadius", number 12)
                  ∷ (
                    text "fills",
                    choose kind ((text "button", blue) ∷ (text "admin-sidebar", tint 6 10 20) ∷ [])
                        white,
                  )
                  ∷ (text "strokes", choose kind ((text "button", words []) ∷ []) (tint 82 86 92))
                  ∷ (text "strokeWeight", number (choose kind ((text "button", 0) ∷ []) 1))
                  ∷ (if is_button kind
                      then alignment (text "CENTER") (text "CENTER")
                      else if is_bar kind
                      then alignment (text "SPACE_BETWEEN") (text "CENTER")
                      else []))))

-- `renderComponent`: its three fonts are loaded before the children are removed.
unfoldable pub render_component : (Text → Result Done) → Text → Text → List Node → Drawn
unfolding component_children with_font
render_component load kind name old = with_font (load (text "Regular")) old (
    with_font (load (text "Medium")) old (
      with_font (load (text "Semi Bold")) old
        (without (λ n. true) old ++ component_children kind name, ok tt)))
