-- ===== src/Figma/Adapter/Nodes.antt =====
-- tools/figma-plugin/src/figma/adapter.ts: the upserts of components and screens on a page.
pub mod Redrawn
use smart_parcel_locker.Prelude.{
  ℕ, Text, text, text_eq, Bool, true, false, ◌&&◌, ◌==◌, Option, none, some, List, [], ◌∷◌, ◌++◌,
  ◌or_else◌, ok, ◌≡◌, if◌then◌else◌,
}
use smart_parcel_locker.Prelude.Int.{ℤ, pos, ◌+ℤ◌}
use smart_parcel_locker.Prelude.Floats.{less_int}
use smart_parcel_locker.HomePage.{includes}
use smart_parcel_locker.Figma.{
  err, Result, ResourceOutcome, created, updated, conflicted, failed, ResourceResult,
}
use smart_parcel_locker.Figma.Requests.{Value, number, word, flag, words, ResourceSpec}
use smart_parcel_locker.Figma.Document.{
  Document, pages, find, Obtained, held, owned, find_owned, named_or_made,
}
use smart_parcel_locker.Figma.Drawing.{Node, fixed, padding, tint}
use smart_parcel_locker.Figma.Stages.{Done}
use smart_parcel_locker.Figma.Drawing.Screen.{Drawn, draw_screen, render_admin_screen}
use smart_parcel_locker.Figma.Drawing.Component.{component_look, render_component}
use smart_parcel_locker.Figma.Adapter.{
  Calls, Answer, property, result, string, settle, silent_conflict,
}

-- The calls of the API for nodes, with what its documentation says of them. `size_of` is `Number(…)`
-- of a value, as the size of a node.
pub record NodeCalls {S : Type 0} (d : Document S) : Type 0 where
  pub size_of : Option Value → ℕ
  pub components_of : S → Text → List Text
  pub frames_of : S → Text → List Text
  pub create_component : S → Text × S
  pub create_frame : S → Text × S
  pub append_child : Text → Text → S → S
  pub children : S → Text → List Node
  pub width : S → Text → ℕ
  pub height : S → Text → ℕ
  pub place : S → Text → ℤ × ℤ
  pub extents : S → Text → List (Text × ℤ × ℤ)
  pub resize : Text → ℕ → ℕ → S → S
  pub set_look : Text → List (Text × Value) → S → S
  pub draw : Text → List Node → S → S
  pub move : Text → ℤ × ℤ → S → S
  pub children-set_name : (id t : Text) (s : S) → children (d.set_name id t s) id ≡ children s id
  pub children-resize :
      (id : Text) (w h : ℕ) (s : S) → children (resize id w h s) id ≡ children s id
  pub children-set_look :
      (id : Text) (look : List (Text × Value)) (s : S)
      → children (set_look id look s) id ≡ children s id
  pub children-draw :
      (id : Text) (nodes : List Node) (s : S) → children (draw id nodes s) id ≡ nodes
  pub children-move : (id : Text) (at : ℤ × ℤ) (s : S) → children (move id at s) id ≡ children s id
  pub width-resize : (id : Text) (w h : ℕ) (s : S) → width (resize id w h s) id ≡ w
  pub height-resize : (id : Text) (w h : ℕ) (s : S) → height (resize id w h s) id ≡ h
  pub width-set_look :
      (id : Text) (look : List (Text × Value)) (s : S) → width (set_look id look s) id ≡ width s id
  pub height-set_look :
      (id : Text) (look : List (Text × Value)) (s : S)
      → height (set_look id look s) id ≡ height s id

-- `spec[name]`
abbrev prop : Text → ResourceSpec → Option Value
unfolding property
prop name spec = property name spec.properties

abbrev is_word : Text → Option Value → Bool
is_word t (some (word u)) = text_eq u t
is_word t _ = false

abbrev words_of : Option Value → List Text
words_of (some (words ts)) = ts
words_of _ = []

abbrev is_origin : ℤ → Bool
is_origin (pos n) = n == 0
is_origin _ = false

-- `Math.max(max, item.x + item.width)`, from 0 on
abbrev right_of : ℤ → List (Text × ℤ × ℤ) → ℤ
right_of max [] = max
right_of max ((id, x, width) ∷ rest) =
    right_of (if less_int max (x +ℤ width) then x +ℤ width else max) rest

-- `page.children.filter((item) => item.id !== node.id)`
abbrev others_than : Text → List (Text × ℤ × ℤ) → List (Text × ℤ × ℤ)
others_than id [] = []
others_than id ((other, x, width) ∷ rest) =
    let later = others_than id rest in if text_eq other id then later else (other, x, width) ∷ later

module _ {S : Type 0} (d : Document S) (c : Calls d) (n : NodeCalls d) where
  -- A node at the origin is put to the right of the others.
  abbrev beside : List (Text × ℤ × ℤ) → ℤ × ℤ → ℤ × ℤ
  beside others (x, y) =
      if is_origin x && is_origin y then (right_of (pos 0) others +ℤ pos 80, pos 80) else (x, y)

  -- Where a node comes: at the coordinates of the request, if both are numbers.
  target : Option Value → Option Value → List (Text × ℤ × ℤ) → ℤ × ℤ → ℤ × ℤ
  target (some (number x)) (some (number y)) others at = (pos x, pos y)
  target x y others at = beside others at

  -- `positionNode`; a node that stays is moved to where it is.
  unfoldable pub position_node : Text → Text → ResourceSpec → S → S
  unfolding target property
  position_node page id spec s =
      n.move id
        (target (prop (text "x") spec) (prop (text "y") spec) (others_than id (n.extents s page))
          (n.place s id))
        s

  -- Where the key finds no node on the page, a new one is made, if its name is free.
  abbrev node_of : (S → Text × S) → ResourceSpec → S → List Text → Option Text → Obtained S
  node_of create spec s ids (some id) = held updated id s
  node_of create spec s ids none =
      named_or_made d (λ file. some (create file)) spec.key s
        (find (λ id. text_eq (d.name s id) spec.name) ids)

  abbrev obtain_node : (S → Text × S) → ResourceSpec → S → List Text → Obtained S
  obtain_node create spec s ids = node_of create spec s ids (find (owned d s spec.key) ids)

  -- A new node is appended to the page.
  abbrev appended : Text → ResourceOutcome → Text → S → S
  appended page created id s = n.append_child page id s
  appended page _ id s = s

  unfoldable pub done : ResourceSpec → ResourceOutcome → Text → S → Answer S
  unfolding result
  done spec outcome id s = (s, ok (result spec.key outcome (some id) none))

  -- `loadFontAsync` for a style of Inter
  inter_font : S → Text → Result Done
  inter_font s style = c.load_font (record { family = text "Inter"; style = style }) s

  -- Where a font was refused, the upsert is rejected with the file as it is.
  unfoldable pub unless_stopped : Result Done → S → Answer S → Answer S
  unless_stopped (err e) s answer = (s, err e)
  unless_stopped (ok loaded) s answer = answer

  fill_component : Text → ResourceSpec → ResourceOutcome → Text → S → Answer S
  unfolding done property position_node inter_font unless_stopped
  fill_component page spec outcome id s =
      let named = d.set_name id spec.name (appended page outcome id s) in
      let kind = string d c (prop (text "visualKind") spec or_else some (word (text "generic"))) in
      let width = n.size_of (prop (text "width") spec or_else some (number 280)) in
      let height = n.size_of (prop (text "height") spec or_else some (number 112)) in
      let drawn = render_component (inter_font named) kind spec.name (n.children named id) in
      let looks =
        n.set_look id (component_look width height kind) (n.resize id width height named) in
      unless_stopped drawn.1 named
        (done spec outcome id (position_node page id spec (n.draw id drawn.0 looks)))

  lacking_page : Text → ResourceSpec → ResourceResult
  unfolding result
  lacking_page message spec = result spec.key failed none (some message)

  component_on : ResourceSpec → Option Text → S → Answer S
  unfolding lacking_page fill_component silent_conflict
  component_on spec none s = (s, ok (lacking_page (text "Component page missing") spec))
  component_on spec (some page) s =
      settle d c s (obtain_node n.create_component spec s (n.components_of s page))
        (silent_conflict d c spec) (lacking_page (text "Component page missing") spec)
        (fill_component page spec)

  -- `upsertComponentFamily`; `pageFor` finds the page by its key.
  unfoldable pub upsert_component_family : ResourceSpec → S → Answer S
  unfolding component_on property
  upsert_component_family spec s =
      component_on spec (find_owned d pages (string d c (prop (text "pageKey") spec)) s) s

  -- The look of every screen, and of one with an automatic layout.
  abbrev screen_look : List (Text × Value)
  screen_look = (text "fills", tint 97 98 100) ∷ (text "clipsContent", flag true) ∷ []

  abbrev automatic_look : List (Text × Value)
  automatic_look =
      (text "layoutMode", word (text "VERTICAL"))
      ∷ (fixed ++ (padding 24 24 ++ (text "itemSpacing", number 16) ∷ []))

  abbrev admin_look : List (Text × Value)
  admin_look =
      (text "layoutMode", word (text "HORIZONTAL"))
      ∷ (fixed ++ (padding 0 0 ++ (text "itemSpacing", number 0) ∷ []))

  abbrev action_label : ResourceSpec → Text
  unfolding includes
  action_label spec = if includes spec.key (text "state-matrix") then text "查看状态处理规范" else text "继续"

  -- What is drawn into a screen, by its theme.
  unfoldable pub contents : (Text → Result Done) → Bool → ResourceSpec → ℕ → ℕ → List Node → Drawn
  unfolding property includes
  contents load dark spec width height old =
      let sections = words_of (prop (text "sections") spec or_else prop (text "states") spec) in
      if dark
      then render_admin_screen load width height spec.name sections old
      else draw_screen load width height spec.name sections (action_label spec) old

  -- The frame of a screen, before anything is drawn into it.
  unfoldable pub bare_screen : ResourceSpec → Text → S → S
  unfolding property
  bare_screen spec id s =
      let sized =
        n.resize id (n.size_of (prop (text "width") spec)) (n.size_of (prop (text "height") spec))
          (d.set_name id spec.name s) in
      n.set_look id
        (if is_word (text "dark") (prop (text "navigationTheme") spec)
          then admin_look
          else automatic_look)
        (n.set_look id screen_look sized)

  unfoldable pub screen_contents : ResourceSpec → Text → S → Drawn
  unfolding contents property inter_font
  screen_contents spec id s =
      contents (inter_font s) (is_word (text "dark") (prop (text "navigationTheme") spec)) spec
        (n.width s id) (n.height s id) (n.children s id)

  -- A drawing that stops leaves what it has drawn, and no place is sought for the screen.
  unfoldable pub fill_screen : Text → ResourceSpec → ResourceOutcome → Text → S → Answer S
  unfolding done position_node bare_screen screen_contents unless_stopped
  fill_screen page spec outcome id s =
      let bare = bare_screen spec id (appended page outcome id s) in
      let drawing = screen_contents spec id bare in
      let drawn = n.draw id drawing.0 bare in
      unless_stopped drawing.1 drawn (done spec outcome id (position_node page id spec drawn))

  screen_on : ResourceSpec → Option Text → S → Answer S
  unfolding lacking_page fill_screen silent_conflict
  screen_on spec none s = (s, ok (lacking_page (text "Screen page missing") spec))
  screen_on spec (some page) s =
      settle d c s (obtain_node n.create_frame spec s (n.frames_of s page))
        (silent_conflict d c spec) (lacking_page (text "Screen page missing") spec)
        (fill_screen page spec)

  -- `upsertScreen`
  unfoldable pub upsert_screen : ResourceSpec → S → Answer S
  unfolding screen_on property
  upsert_screen spec s =
      screen_on spec (find_owned d pages (string d c (prop (text "pageKey") spec)) s) s
