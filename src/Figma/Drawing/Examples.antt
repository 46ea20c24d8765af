-- ===== src/Figma/Drawing/Examples.antt =====
-- tools/figma-plugin/src/figma/adapter.ts: the examples on the screen of the tokens.
use smart_parcel_locker.Prelude.{
  ℕ, ◌*◌, ◌==◌, ltb, Text, text, text_eq, any, Option, none, some, List, [], ◌∷◌, ◌++◌, map,
  if◌then◌else◌,
}
use smart_parcel_locker.Figma.Color.{rgb}
use smart_parcel_locker.Figma.Requests.{Value, number, word, words, color}
use smart_parcel_locker.Figma.FoundationContent.{
  foundation_sections, foundation_items, FoundationItem, prose, spacing, radius, shadow,
}
use smart_parcel_locker.Figma.Drawing.{
  Node, node, nil, children, frame_node, rectangle_node, tint, fixed, padding, size, text_child,
}

-- `Math.max(a, b)`, `Math.min(a, b)`
abbrev pub larger : ℕ → ℕ → ℕ
larger a b = if ltb a b then b else a

abbrev pub smaller : ℕ → ℕ → ℕ
smaller a b = if ltb a b then a else b

-- The value of an item, as a number.
abbrev value_of : (ℕ → ℕ) → Option ℕ → Value
value_of f none = word (text "NaN")
value_of f (some n) = number (f n)

abbrev corner : FoundationItem → Value
corner item = elim (item.kind) [ radius ↦ value_of (λ n. smaller n 36) item.value | _ ↦ number 8 ]

abbrev colored_or : Value → Option Text → Value
colored_or default none = default
colored_or default (some hex) = color (rgb hex)

-- The effect of a shadow is told by its radius; its colour and its offset are the same for all.
abbrev shadow_of : FoundationItem → List (Text × Value)
shadow_of item = elim (item.kind) [
  | shadow ↦ (text "effects", value_of (λ n. n) item.value) ∷ []
  | _ ↦ []
]

abbrev scaled : Option ℕ → ℕ
scaled none = 14
scaled (some n) = if n == 0 then 14 else smaller n 24

abbrev label_size : FoundationItem → ℕ
label_size item = elim (item.kind) [ prose ↦ scaled item.value | _ ↦ 14 ]

abbrev label_fill : Option Text → Value
label_fill none = tint 6 16 30
label_fill (some hex) = tint 100 100 100

abbrev pub detail_of : ℕ → Option Text → List Node
detail_of font_size none = []
detail_of font_size (some []) = []
detail_of font_size (some (c ∷ t)) =
    text_child (c ∷ t) font_size (text "Regular") (tint 40 44 52) ∷ []

abbrev bar_of : FoundationItem → List Node
bar_of item = elim (item.kind) [
  | spacing ↦
      node rectangle_node none
        ((text "width", value_of (λ n. larger 8 (n * 3)) item.value)
          ∷ (text "height", number 8)
          ∷ (text "cornerRadius", number 4)
          ∷ (text "fills", tint 9 47 100)
          ∷ [])
        nil
      ∷ []
  | _ ↦ []
]

-- The card of an example.
example_card : Text → FoundationItem → Node
example_card section item =
    node frame_node (some (text "Example/" ++ item.label))
      ((text "layoutMode", word (text "VERTICAL"))
        ∷ (fixed
            ++ (size (if text_eq section (text "设计原则") then 260 else 150) 74
                ++ (padding 12 12
                    ++ (text "itemSpacing", number 6)
                      ∷ (text "cornerRadius", corner item)
                      ∷ (text "fills", colored_or (tint 95 97 100) item.color)
                      ∷ shadow_of item))))
      (children (
        text_child item.label (label_size item) (text "Medium") (label_fill item.color)
        ∷ (detail_of 11 item.description ++ bar_of item)))

-- `addFoundationExamples`
unfoldable pub foundation_examples : Text → Node
unfolding example_card
foundation_examples section =
    node frame_node (some (text "Generated Examples/" ++ section))
      ((text "layoutMode", word (text "HORIZONTAL"))
        ∷ (text "itemSpacing", number 12)
        ∷ (text "fills", words [])
        ∷ (text "layoutSizingHorizontal", word (text "FILL"))
        ∷ (text "layoutSizingVertical", word (text "HUG"))
        ∷ [])
      (children (map (example_card section) (foundation_items section)))

abbrev pub examples_of : Text → List Node
examples_of section =
    if any (text_eq section) foundation_sections then foundation_examples section ∷ [] else []
