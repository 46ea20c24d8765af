-- ===== src/Figma/Adapter/Nodes/Redrawn.antt =====
-- A screen that is filled again.
use smart_parcel_locker.Prelude.{ℕ, Text, text, Bool, true, false, List, ◌≡◌, refl, sym, ap, ◌∙◌}
use smart_parcel_locker.Figma.{err, ok, ResourceResult, Result, ResourceOutcome, updated}
use smart_parcel_locker.Figma.Requests.{ResourceSpec}
use smart_parcel_locker.Figma.Document.{Document}
use smart_parcel_locker.Figma.Stages.{Done}
use smart_parcel_locker.Figma.Drawing.{Node}
use smart_parcel_locker.Figma.Drawing.Afresh.{ended, nodes, render-afresh, draw_screen-again}
use smart_parcel_locker.Figma.Adapter.{Calls, Answer, property}
use smart_parcel_locker.Figma.Adapter.Nodes.{
  NodeCalls, prop, is_word, position_node, contents, bare_screen, screen_contents, inter_font,
  unless_stopped, done, fill_screen, appended,
}

module _ {S : Type 0} (d : Document S) (c : Calls d) (n : NodeCalls d) where
  contents-again :
      (load again : Text → Result Done) (dark : Bool) (spec : ResourceSpec) (width height : ℕ)
      (old : List Node)
      → let first = contents d c n load dark spec width height old in
        let second = contents d c n again dark spec width height first.0 in
        first.1 ≡ ok tt → second.1 ≡ ok tt → second.0 ≡ first.0
  unfolding contents
  contents-again load again true spec width height old p q =
      render-afresh load again width height spec.name _ old _ p q
  contents-again load again false spec width height old p q =
      draw_screen-again load again width height spec.name _ _ old p q

  is_dark : ResourceSpec → Bool
  unfolding property
  is_dark spec = is_word (text "dark") (prop (text "navigationTheme") spec)

  screen_width : ResourceSpec → ℕ
  unfolding property
  screen_width spec = n.size_of (prop (text "width") spec)

  screen_height : ResourceSpec → ℕ
  unfolding property
  screen_height spec = n.size_of (prop (text "height") spec)

  -- What is drawn into a screen, from the children that it had.
  screen_contents_bare :
      (spec : ResourceSpec) (id : Text) (s : S)
      → screen_contents d c n spec id (bare_screen d c n spec id s)
        ≡ contents d c n
            (inter_font d c n (bare_screen d c n spec id s))
            (is_dark spec)
            spec
            (screen_width spec)
            (screen_height spec)
            (n.children s id)
  unfolding screen_contents bare_screen is_dark screen_width screen_height
  screen_contents_bare spec id s =
      rw
        (
          n.width-set_look, n.width-set_look, n.width-resize, n.height-set_look, n.height-set_look,
          n.height-resize, n.children-set_look, n.children-set_look, n.children-resize,
          n.children-set_name,
        )
        refl

  children-position_node :
      (page id : Text) (spec : ResourceSpec) (s : S)
      → n.children (position_node d c n page id spec s) id ≡ n.children s id
  unfolding position_node
  children-position_node page id spec s = n.children-move id _ s

  finished :
      (r : Result Done) (s : S) (answer : Answer S) (result : ResourceResult)
      → (unless_stopped d c n r s answer).1 ≡ ok result
      → (r ≡ ok tt) × (unless_stopped d c n r s answer ≡ answer)
  unfolding unless_stopped
  finished (err e) s answer result h = cc (h)
  finished (ok loaded) s answer result h = (refl, refl)

  -- The children of a screen that was filled
  children-fill_screen :
      (page : Text) (spec : ResourceSpec) (outcome : ResourceOutcome) (id : Text) (s : S)
      (result : ResourceResult)
      → (fill_screen d c n page spec outcome id s).1 ≡ ok result
      → let bare = bare_screen d c n spec id (appended d c n page outcome id s) in
        let drawing = screen_contents d c n spec id bare in
        (drawing.1 ≡ ok tt)
        × (n.children (fill_screen d c n page spec outcome id s).0 id ≡ drawing.0)
  unfolding fill_screen done
  children-fill_screen page spec outcome id s result h =
      let bare = bare_screen d c n spec id (appended d c n page outcome id s) in
      let drawing = screen_contents d c n spec id bare in
      let (ended, same) = finished drawing.1 (n.draw id drawing.0 bare) _ result h in
      (
        ended,
        ap (λ (a : Answer S). n.children a.0 id) same
            ∙ children-position_node page id spec (n.draw id drawing.0 bare)
            ∙ n.children-draw id drawing.0 bare,
      )

  -- Where a screen was filled and is filled again, and no font is refused either time, the second
  -- time leaves its children as they are, in either theme.
  pub fill_screen-again :
      (page : Text) (spec : ResourceSpec) (outcome : ResourceOutcome) (id : Text) (s : S)
      (result again : ResourceResult)
      → (fill_screen d c n page spec outcome id s).1 ≡ ok result
      → (fill_screen d c n page spec updated id (fill_screen d c n page spec outcome id s).0).1
        ≡ ok again
      → n.children
          (fill_screen d c n page spec updated id (fill_screen d c n page spec outcome id s).0).0
          id
        ≡ n.children (fill_screen d c n page spec outcome id s).0 id
  fill_screen-again page spec outcome id s result again p q =
      let start = appended d c n page outcome id s in
      let filled = (fill_screen d c n page spec outcome id s).0 in
      let (e1, c1) = children-fill_screen page spec outcome id s result p in
      let (e2, c2) = children-fill_screen page spec updated id filled again q in
      let k1 = screen_contents_bare spec id start in
      let k2 = screen_contents_bare spec id filled in
      let drawn_first = c1 ∙ nodes k1 in
      let redrawn =
        k2
        ∙ ap
            (λ (l : List Node).
              contents d c n (inter_font d c n (bare_screen d c n spec id filled)) (is_dark spec)
                spec (screen_width spec) (screen_height spec) l)
            drawn_first in
      c2
      ∙ nodes redrawn
      ∙ contents-again _ _ (is_dark spec) spec (screen_width spec) (screen_height spec)
          (n.children start id) (ended k1 e1) (ended redrawn e2)
      ∙ sym drawn_first
