-- ===== src/Figma/Drawing.antt =====
-- tools/figma-plugin/src/figma/adapter.ts: what the adapter draws, as the children of a node in their
-- order: `appendChild` puts a node last, `remove` takes it out, and a new node has no children.
pub mod Examples
pub mod Screen
pub mod Samples
pub mod Component
pub mod Removal
pub mod Label
pub mod Twice
pub mod Afresh
use smart_parcel_locker.Prelude.{
  ℕ, Text, text, text_eq, Bool, true, false, not, Option, none, some, List, [], ◌∷◌, ◌++◌,
  if◌then◌else◌,
}
use smart_parcel_locker.Figma.Color.{RgbValue, over}
use smart_parcel_locker.Figma.Requests.{Value, number, word, words, color}

pub data NodeKind : Type 0 where
  frame_node text_node ellipse_node rectangle_node other_node : NodeKind

mutual
  -- A node: its kind, its name, the properties that were set, and its children. A node that the
  -- adapter does not name has the name that Figma gives it, `none`.
  pub data Node : Type 0 where
    node : NodeKind → Option Text → List (Text × Value) → Nodes → Node

  pub data Nodes : Type 0 where
    nil : Nodes
    cons : Node → Nodes → Nodes

-- The children, appended one after the other.
abbrev pub children : List Node → Nodes
children [] = nil
children (n ∷ rest) = cons n (children rest)

abbrev pub name_of : Node → Option Text
name_of (node kind name look inner) = name

abbrev pub kind_of : Node → NodeKind
kind_of (node kind name look inner) = kind

abbrev pub is_text : NodeKind → Bool
is_text text_node = true
is_text _ = false

-- `name === t`
abbrev pub has_name : Text → Option Text → Bool
has_name t none = false
has_name t (some name) = text_eq name t

-- Every node but those that pass the test stays: `for (const child of …) if (…) child.remove()`.
abbrev pub without : (Node → Bool) → List Node → List Node
without test [] = []
without test (n ∷ rest) = let others = without test rest in if test n then others else n ∷ others

-- A property of a node is set.
abbrev pub assign : Text → Value → List (Text × Value) → List (Text × Value)
assign name value [] = (name, value) ∷ []
assign name value ((other, old) ∷ rest) =
    let later = assign name value rest in
    if text_eq name other then (name, value) ∷ rest else (other, old) ∷ later

-- A colour in hundredths.
unfoldable pub tint : ℕ → ℕ → ℕ → Value
unfolding over
tint r g b = color (record { r = over r 100; g = over g 100; b = over b 100 })

abbrev pub fixed : List (Text × Value)
fixed =
    (text "primaryAxisSizingMode", word (text "FIXED"))
    ∷ (text "counterAxisSizingMode", word (text "FIXED"))
    ∷ []

abbrev pub padding : ℕ → ℕ → List (Text × Value)
padding vertical horizontal =
    (text "paddingTop", number vertical)
    ∷ (text "paddingBottom", number vertical)
    ∷ (text "paddingLeft", number horizontal)
    ∷ (text "paddingRight", number horizontal)
    ∷ []

abbrev pub size : ℕ → ℕ → List (Text × Value)
size width height = (text "width", number width) ∷ (text "height", number height) ∷ []

-- `{ family: "Inter", style }`
abbrev pub inter : Text → Value
inter style = words (text "Inter" ∷ style ∷ [])

-- `addText`
unfoldable pub text_child : Text → ℕ → Text → Value → Node
text_child characters font_size style fill =
    node text_node none
      ((text "fontName", inter style)
        ∷ (text "fontSize", number font_size)
        ∷ (text "characters", word characters)
        ∷ (text "fills", fill)
        ∷ [])
      nil

-- `addSurface`, to which a child may be added; `filled` says whether the parent has a layout.
unfoldable pub surface : Bool → ℕ → Value → ℕ → List (Text × Value) → List Node → Node
surface filled height fill radius more inner =
    node frame_node none
      ((text "layoutMode", word (text "HORIZONTAL"))
        ∷ (fixed
            ++ (size 100 height
                ++ (padding 10 12
                    ++ (text "fills", fill)
                      ∷ (text "cornerRadius", number radius)
                      ∷ ((if filled
                            then (text "layoutSizingHorizontal", word (text "FILL")) ∷ []
                            else [])
                          ++ more)))))
      (children inner)
