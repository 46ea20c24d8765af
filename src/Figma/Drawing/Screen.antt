-- ===== src/Figma/Drawing/Screen.antt =====
-- tools/figma-plugin/src/figma/adapter.ts: the contents of a screen.
use smart_parcel_locker.Prelude.{
  any, err, ok, Result, ℕ, ◌-◌, ◌==◌, ltb, leb, Text, text, text_eq, Bool, true, false, ◌&&◌,
  Option, none, some, List, [], ◌∷◌, ◌++◌, map, if◌then◌else◌,
}
use smart_parcel_locker.Figma.Color.{section_visual_spec}
use smart_parcel_locker.Figma.Requests.{Value, number, word, color, indexed}
use smart_parcel_locker.Figma.FoundationContent.{foundation_sections}
use smart_parcel_locker.Figma.Foundations.{starts_with}
use smart_parcel_locker.Figma.Stages.{Done}
use smart_parcel_locker.Figma.Drawing.Examples.{larger, detail_of, examples_of}
use smart_parcel_locker.Figma.Drawing.{
  Node, node, nil, children, frame_node, text_node, name_of, is_text, has_name, without, assign,
  tint, fixed, padding, size, inter, text_child,
}

-- Whether a node is the label of `ensureLabel`.
abbrev pub is_label : Node → Bool
is_label (node kind name look inner) = is_text kind && has_name (text "Generated Label") name

-- What `ensureLabel` sets; without an automatic layout, the place too.
abbrev pub label_look : Bool → Text → List (Text × Value) → List (Text × Value)
label_look automatic title look =
    let written = assign (text "characters") (word title) (
      assign (text "fontSize") (number 16)
        (assign (text "fontName") (inter (text "Semi Bold")) look)) in
    if automatic
    then written
    else assign (text "y") (number 24) (assign (text "x") (number 24) written)

abbrev pub relabel : Bool → Text → Node → Node
relabel automatic title (node kind name look inner) =
    node kind name (label_look automatic title look) inner

-- What is drawn: the children afterwards, and whether the drawing came to its end. A style of Inter
-- is loaded or refused by `load`, in the same way throughout one drawing.
abbrev pub Drawn : Type 0
Drawn = List Node × Result Done

-- `await figma.loadFontAsync(…)`: where it is rejected the drawing stops with these children.
unfoldable pub with_font : Result Done → List Node → Drawn → Drawn
with_font (err e) stopped rest = (stopped, err e)
with_font (ok done) stopped rest = rest

-- The first label is written again; where there is none, a new one comes last.
unfoldable pub put_label : Bool → Text → List Node → List Node
put_label automatic title [] =
    node text_node (some (text "Generated Label")) (label_look automatic title []) nil ∷ []
put_label automatic title (n ∷ rest) =
    let later = put_label automatic title rest in
    if is_label n then relabel automatic title n ∷ rest else n ∷ later

-- `ensureLabel`
unfoldable pub ensure_label : (Text → Result Done) → Bool → Text → List Node → Drawn
unfolding with_font put_label
ensure_label load automatic title old =
    with_font (load (text "Semi Bold")) old (put_label automatic title old, ok tt)

-- `s.split("｜")`, of which the first two parts are read: the part in front, and the one behind.
abbrev pub before_bar : Text → Text
before_bar [] = []
before_bar (c ∷ s) = let rest = before_bar s in if c == 0xff5c then [] else c ∷ rest

abbrev pub after_bar : Text → Text
after_bar [] = []
after_bar (c ∷ s) = let rest = after_bar s in if c == 0xff5c then before_bar s else rest

-- The width that a screen leaves to its parts.
abbrev inner_width : ℕ → ℕ
inner_width width = larger 240 (width - 48)

-- The node of a section, by the sizes of the parent and the index, with its examples.
unfoldable pub section_frame : ℕ → ℕ → ℕ × Text → List Node → Node
section_frame width height (index, section) examples =
    let visual = section_visual_spec width index in
    node frame_node (some (text "Generated Section/" ++ section))
      ((text "layoutMode", word (text "VERTICAL"))
        ∷ (fixed
            ++ (padding 20 20
                ++ (text "itemSpacing", number 12)
                  ∷ (text "fills", color visual.fill)
                  ∷ (text "strokes", color visual.stroke)
                  ∷ (text "strokeWeight", number visual.stroke_weight)
                  ∷ (text "cornerRadius", number 12)
                  ∷ (size (inner_width width)
                        (if ltb 500 width && leb height 900 then 120 else visual.height)
                      ++ (text "layoutSizingHorizontal", word (text "FILL"))
                        ∷ (text "layoutSizingVertical", word (text "FIXED"))
                        ∷ []))))
      (children (
        text_child (before_bar section) 18 (text "Medium") (tint 6 16 30)
        ∷ (detail_of 13 (some (after_bar section)) ++ examples)))

-- The whole node of a section
unfoldable pub section_node : ℕ → ℕ → ℕ × Text → Node
unfolding section_frame
section_node width height entry = section_frame width height entry (examples_of entry.1)

-- `addFoundationExamples` loads its font first; other sections have no examples.
unfoldable pub examples_font : (Text → Result Done) → Text → Result Done
examples_font load section =
    if any (text_eq section) foundation_sections then load (text "Medium") else ok tt

-- The sections one after the other; where the font of the examples is refused, the section stays
-- without them, and no section follows.
unfoldable pub add_sections : (Text → Result Done) → ℕ → ℕ → List (ℕ × Text) → Drawn
unfolding with_font section_frame section_node examples_font
add_sections load width height [] = ([], ok tt)
add_sections load width height (entry ∷ rest) =
    let later = add_sections load width height rest in
    with_font (examples_font load entry.1) (section_frame width height entry [] ∷ [])
      (section_node width height entry ∷ later.0, later.1)

abbrev pub is_section_name : Option Text → Bool
is_section_name none = false
is_section_name (some name) = starts_with (text "Generated Section/") name

-- `ensureSections`: the old sections are removed before the font is loaded.
unfoldable pub ensure_sections : (Text → Result Done) → ℕ → ℕ → List Text → List Node → Drawn
unfolding with_font add_sections
ensure_sections load width height sections old =
    let kept = without (λ n. is_section_name (name_of n)) old in
    let added = add_sections load width height (indexed 0 sections) in
    with_font (load (text "Regular")) kept (kept ++ added.0, added.1)

-- The button of `ensurePrimaryAction`
unfoldable pub action_node : ℕ → Text → Node
action_node width label =
    node frame_node (some (text "Generated Primary Action"))
      ((text "layoutMode", word (text "HORIZONTAL"))
        ∷ (text "primaryAxisAlignItems", word (text "CENTER"))
        ∷ (text "counterAxisAlignItems", word (text "CENTER"))
        ∷ (size (inner_width width) 48
            ++ (text "cornerRadius", number 10)
              ∷ (text "fills", tint 9 47 100)
              ∷ (text "layoutSizingHorizontal", word (text "FILL"))
              ∷ (text "layoutSizingVertical", word (text "FIXED"))
              ∷ []))
      (children (text_child label 15 (text "Semi Bold") (tint 100 100 100) ∷ []))

-- `ensurePrimaryAction`
unfoldable pub ensure_primary_action : ℕ → Text → List Node → List Node
ensure_primary_action width label old =
    without (λ n. has_name (text "Generated Primary Action") (name_of n)) old
    ++ action_node width label ∷ []

-- The label and the sections
unfoldable pub label_and_sections :
    (Text → Result Done) → ℕ → ℕ → Text → List Text → List Node → Drawn
unfolding with_font ensure_label ensure_sections
label_and_sections load width height title sections old =
    let labelled = ensure_label load true title old in
    with_font labelled.1 labelled.0 (ensure_sections load width height sections labelled.0)

-- What `upsertScreen` draws into a screen with an automatic layout.
unfoldable pub draw_screen :
    (Text → Result Done) → ℕ → ℕ → Text → List Text → Text → List Node → Drawn
unfolding with_font label_and_sections
draw_screen load width height title sections label old =
    let drawn = label_and_sections load width height title sections old in
    with_font drawn.1 drawn.0 (ensure_primary_action width label drawn.0, ok tt)

menu_entry : Text → Node
menu_entry entry =
    if text_eq entry (text "概览")
    then text_child entry 14 (text "Medium") (tint 35 65 100)
    else text_child entry 14 (text "Regular") (tint 72 78 88)

sidebar : ℕ → Node
unfolding menu_entry
sidebar height =
    node frame_node (some (text "Generated Admin Sidebar"))
      ((text "layoutMode", word (text "VERTICAL"))
        ∷ (size 220 height
            ++ (padding 28 20
                ++ (text "itemSpacing", number 18)
                  ∷ (text "fills", tint 6 10 20)
                  ∷ (text "layoutSizingVertical", word (text "FILL"))
                  ∷ [])))
      (children (
        text_child (text "智能快递柜") 18 (text "Semi Bold") (tint 100 100 100)
        ∷ map menu_entry (
            text "概览"
            ∷ text "网点管理"
            ∷ text "柜机管理"
            ∷ text "订单管理"
            ∷ text "支付管理"
            ∷ text "通知管理"
            ∷ text "权限管理"
            ∷ text "审计日志"
            ∷ [])))

-- The contents beside the sidebar; `FILL` gives them the width that the frame leaves.
main_content : ℕ → ℕ → List Node → Node
main_content width height inner =
    node frame_node (some (text "Generated Admin Content"))
      ((text "layoutMode", word (text "VERTICAL"))
        ∷ (fixed
            ++ (size (width - 220) height
                ++ (padding 24 24
                    ++ (text "itemSpacing", number 16)
                      ∷ (text "fills", tint 97 98 100)
                      ∷ (text "layoutSizingHorizontal", word (text "FILL"))
                      ∷ (text "layoutSizingVertical", word (text "FILL"))
                      ∷ []))))
      (children inner)

-- `renderAdminScreen`: every child is removed first, and the new contents may stop at a font.
unfoldable pub render_admin_screen :
    (Text → Result Done) → ℕ → ℕ → Text → List Text → List Node → Drawn
unfolding sidebar main_content label_and_sections
render_admin_screen load width height title sections old =
    let inner = label_and_sections load (width - 220) height title sections [] in
    (without (λ n. true) old ++ sidebar height ∷ main_content width height inner.0 ∷ [], inner.1)
