-- ===== src/Figma/Drawing/Afresh.antt =====
-- Drawings that come to their end.
use smart_parcel_locker.Prelude.{
  ◌-◌, ℕ, Text, text, true, List, [], ◌∷◌, ◌++◌, map, Result, ok, err, ◌≡◌, refl, sym, ap, ◌∙◌,
}
use smart_parcel_locker.Figma.Requests.{indexed}
use smart_parcel_locker.Figma.Stages.{Done}
use smart_parcel_locker.Figma.Drawing.{Node, without, name_of}
use smart_parcel_locker.Figma.Drawing.Screen.{
  Drawn, with_font, ensure_label, put_label, is_section_name, examples_font, section_frame,
  section_node, add_sections, ensure_sections, label_and_sections, draw_screen,
  ensure_primary_action, render_admin_screen,
}
use smart_parcel_locker.Figma.Drawing.Twice.{redraw, redraw-again}

whole :
    (r : Result Done) (stopped : List Node) (rest : Drawn)
    → (with_font r stopped rest).1 ≡ ok tt
    → with_font r stopped rest ≡ rest
unfolding with_font
whole (err e) stopped rest h = cc (h)
whole (ok done) stopped rest h = refl

pub ended : {a b : Drawn} → a ≡ b → a.1 ≡ ok tt → b.1 ≡ ok tt
ended p h = sym (ap (λ (x : Drawn). x.1) p) ∙ h

pub nodes : {a b : Drawn} → a ≡ b → a.0 ≡ b.0
nodes p = ap (λ (x : Drawn). x.0) p

module _ (load : Text → Result Done) (width height : ℕ) where
  add_sections_whole :
      (entries : List (ℕ × Text))
      → (add_sections load width height entries).1 ≡ ok tt
      → (add_sections load width height entries).0 ≡ map (section_node width height) entries
  unfolding add_sections
  add_sections_whole [] h = refl
  add_sections_whole (entry ∷ rest) h =
      let p = whole (examples_font load entry.1) (section_frame width height entry [] ∷ []) _ h in
      nodes p ∙ ap (λ l. section_node width height entry ∷ l) (add_sections_whole rest (ended p h))

  -- The children without the old sections, and the new ones.
  pub parts : Text → List Text → List Node → List Node
  parts title sections old =
      without (λ n. is_section_name (name_of n)) (put_label true title old)
      ++ map (section_node width height) (indexed 0 sections)

  ensure_sections_whole :
      (sections : List Text) (old : List Node)
      → (ensure_sections load width height sections old).1 ≡ ok tt
      → (ensure_sections load width height sections old).0
        ≡ without (λ n. is_section_name (name_of n)) old
          ++ map (section_node width height) (indexed 0 sections)
  unfolding ensure_sections
  ensure_sections_whole sections old h =
      let kept = without (λ n. is_section_name (name_of n)) old in
      let p = whole (load (text "Regular")) kept _ h in
      nodes p ∙ ap (λ l. kept ++ l) (add_sections_whole (indexed 0 sections) (ended p h))

  ensure_label_whole :
      (title : Text) (old : List Node)
      → (ensure_label load true title old).1 ≡ ok tt
      → (ensure_label load true title old).0 ≡ put_label true title old
  unfolding ensure_label
  ensure_label_whole title old h = nodes (whole (load (text "Semi Bold")) old _ h)

  first_ended :
      (r : Result Done) (stopped : List Node) (rest : Drawn)
      → (with_font r stopped rest).1 ≡ ok tt
      → r ≡ ok tt
  unfolding with_font
  first_ended (err e) stopped rest h = cc (h)
  first_ended (ok done) stopped rest h = refl

  label_and_sections_whole :
      (title : Text) (sections : List Text) (old : List Node)
      → (label_and_sections load width height title sections old).1 ≡ ok tt
      → (label_and_sections load width height title sections old).0 ≡ parts title sections old
  unfolding label_and_sections parts
  label_and_sections_whole title sections old h =
      let labelled = ensure_label load true title old in
      let p = whole labelled.1 labelled.0 _ h in
      let same = ensure_label_whole title old (first_ended labelled.1 labelled.0 _ h) in
      nodes p
      ∙ ensure_sections_whole sections labelled.0 (ended p h)
      ∙ ap
          (λ (l : List Node).
            without (λ n. is_section_name (name_of n)) l
            ++ map (section_node width height) (indexed 0 sections))
          same

  pub draw_screen_whole :
      (title label : Text) (sections : List Text) (old : List Node)
      → (draw_screen load width height title sections label old).1 ≡ ok tt
      → (draw_screen load width height title sections label old).0
        ≡ redraw width height title label sections old
  unfolding draw_screen parts
  draw_screen_whole title label sections old h =
      let drawing = label_and_sections load width height title sections old in
      nodes (whole drawing.1 drawing.0 _ h)
      ∙ ap (ensure_primary_action width label)
          (label_and_sections_whole title sections old (first_ended drawing.1 drawing.0 _ h))

without_all : (old : List Node) → without (λ n. true) old ≡ []
without_all [] = refl
without_all (n ∷ rest) = without_all rest

-- What a screen of the administration holds after it was drawn to its end does not depend on what it
-- held before, nodes of the user included.
pub render-afresh :
    (load again : Text → Result Done) (width height : ℕ) (title : Text) (sections : List Text)
    (old new : List Node)
    → (render_admin_screen load width height title sections old).1 ≡ ok tt
    → (render_admin_screen again width height title sections new).1 ≡ ok tt
    → (render_admin_screen again width height title sections new).0
      ≡ (render_admin_screen load width height title sections old).0
unfolding render_admin_screen parts
render-afresh load again width height title sections old new p q =
    let first = label_and_sections_whole load (width - 220) height title sections [] p in
    let second = label_and_sections_whole again (width - 220) height title sections [] q in
    rw (without_all old, without_all new, first, second) refl

pub draw_screen-again :
    (load again : Text → Result Done) (width height : ℕ) (title label : Text) (sections : List Text)
    (old : List Node)
    → let first = draw_screen load width height title sections label old in
      let second = draw_screen again width height title sections label first.0 in
      first.1 ≡ ok tt → second.1 ≡ ok tt → second.0 ≡ first.0
draw_screen-again load again width height title label sections old p q =
    let first = draw_screen load width height title sections label old in
    let done = draw_screen_whole load width height title label sections old p in
    draw_screen_whole again width height title label sections first.0 q
    ∙ ap (redraw width height title label sections) done
    ∙ redraw-again width height title label sections old
    ∙ sym done
