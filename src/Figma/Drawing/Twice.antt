-- ===== src/Figma/Drawing/Twice.antt =====
-- A screen that is drawn again, and the nodes of the user on it.
use smart_parcel_locker.Prelude.{
  ok, err, Result, ◌⊎◌, ℕ, suc, Text, text, text_eq, text_eq_iff, Bool, true, false, ◌&&◌, ◌||◌,
  none, some, List, [], ◌∷◌, ◌++◌, map, ◌≡◌, refl, sym, ap, ap₂, ◌∙◌, inl, inr, arith,
}
use smart_parcel_locker.Figma.Requests.{indexed}
use smart_parcel_locker.Figma.Foundations.{starts_with}
use smart_parcel_locker.Figma.Stages.{Done}
use smart_parcel_locker.Figma.Drawing.Examples.{examples_of}
use smart_parcel_locker.Figma.Drawing.{Node, node, name_of, is_text, has_name, without}
use smart_parcel_locker.Figma.Drawing.Screen.{
  is_label, relabel, put_label, section_node, is_section_name, ensure_sections, Drawn, with_font,
  ensure_label, section_frame, examples_font, add_sections, label_and_sections, action_node,
  ensure_primary_action, draw_screen,
}
use smart_parcel_locker.Figma.Drawing.Removal.{
  append_none, Implies, without-append, without_wider, without_swap,
}
use smart_parcel_locker.Figma.Drawing.Label.{
  put_label_again, Spares, put_label-without, without-put_label,
}

-- The tests of the nodes that the adapter draws.
is_section : Node → Bool
is_section n = is_section_name (name_of n)

is_action : Node → Bool
is_action n = has_name (text "Generated Primary Action") (name_of n)

-- The label, a section or the button.
pub is_generated : Node → Bool
unfolding is_section is_action
is_generated n = is_label n || (is_section n || is_action n)

both_right : (a b : Bool) → (a && b) ≡ true → b ≡ true
both_right a b h = ground arith

label_name : (n : Node) → is_label n ≡ true → name_of n ≡ some (text "Generated Label")
label_name (node kind none look inner) h = cc (both_right (is_text kind) false h)
label_name (node kind (some name) look inner) h =
    ap some ((text_eq_iff name (text "Generated Label")).0 (both_right (is_text kind) _ h))

name-relabel : (title : Text) (n : Node) → name_of (relabel true title n) ≡ name_of n
name-relabel title (node kind name look inner) = refl

is_section-Spares : Spares is_section
unfolding Spares is_section text starts_with
is_section-Spares = (λ n h. rw (label_name n h) refl, λ title n. rw (name-relabel title n) refl)

is_action-Spares : Spares is_action
unfolding Spares is_action text text_eq
is_action-Spares = (λ n h. rw (label_name n h) refl, λ title n. rw (name-relabel title n) refl)

last_two : (a b c : Bool) → (b ≡ true) ⊎ (c ≡ true) → (a || (b || c)) ≡ true
last_two a b c h = ground arith

label_generated : Implies is_label is_generated
unfolding Implies is_generated
label_generated n h = rw h refl

section_generated : Implies is_section is_generated
unfolding Implies is_generated
section_generated n h = last_two (is_label n) (is_section n) (is_action n) (inl h)

action_generated : Implies is_action is_generated
unfolding Implies is_generated
action_generated n h = last_two (is_label n) (is_section n) (is_action n) (inr h)

module _ (width height : ℕ) where
  drawn : List Text → ℕ → List Node
  drawn sections i = map (section_node width height) (indexed i sections)

  without_sections :
      (p : Node → Bool) (sections : List Text) (i : ℕ)
      → Implies is_section p
      → without p (drawn sections i) ≡ []
  unfolding drawn Implies indexed is_section section_node text starts_with
  without_sections p [] i h = refl
  without_sections p (section ∷ rest) i h =
      rw (h (section_node width height (i, section)) refl) (without_sections p rest (suc i) h)

  without_action-sections :
      (sections : List Text) (i : ℕ) → without is_action (drawn sections i) ≡ drawn sections i
  unfolding drawn indexed is_action section_node text text_eq
  without_action-sections [] i = refl
  without_action-sections (section ∷ rest) i =
      ap (λ l. section_node width height (i, section) ∷ l) (without_action-sections rest (suc i))

  -- A screen that is drawn to its end.
  abbrev pub redraw : Text → Text → List Text → List Node → List Node
  redraw title label sections old = ensure_primary_action width label (
      without (λ n. is_section_name (name_of n)) (put_label true title old)
      ++ map (section_node width height) (indexed 0 sections))

  -- The nodes that are neither a section nor the button.
  others : List Node → List Node
  others old = without is_action (without is_section old)

  -- The nodes that stay, with the label.
  kept : Text → List Node → List Node
  kept title old = put_label true title (others old)

  others-put_label :
      (title : Text) (old : List Node)
      → others (put_label true title old) ≡ put_label true title (others old)
  unfolding others
  others-put_label title old =
      ap (without is_action) (put_label-without is_section title old is_section-Spares)
      ∙ put_label-without is_action title (without is_section old) is_action-Spares

  -- A screen: what stays, the sections and the button.
  redraw_parts :
      (title label : Text) (sections : List Text) (old : List Node)
      → redraw title label sections old
        ≡ (kept title old ++ drawn sections 0) ++ action_node width label ∷ []
  unfolding ensure_primary_action kept drawn is_section is_action others
  redraw_parts title label sections old =
      ap (λ l. l ++ action_node width label ∷ [])
        (without-append is_action (without is_section (put_label true title old)) (drawn sections 0)
          ∙ ap₂ (λ a b. a ++ b) (others-put_label title old) (without_action-sections sections 0))

  others-append : (xs ys : List Node) → others (xs ++ ys) ≡ others xs ++ others ys
  unfolding others
  others-append xs ys =
      ap (without is_action) (without-append is_section xs ys)
      ∙ without-append is_action (without is_section xs) (without is_section ys)

  others_again : (old : List Node) → others (others old) ≡ others old
  unfolding others Implies
  others_again old =
      ap (without is_action) (
        without_swap is_section is_action (without is_section old)
        ∙ ap (without is_action) (without_wider is_section is_section old (λ n t. t)))
      ∙ without_wider is_action is_action (without is_section old) (λ n t. t)

  others-sections : (sections : List Text) → others (drawn sections 0) ≡ []
  unfolding others Implies
  others-sections sections =
      ap (without is_action) (without_sections is_section sections 0 (λ n t. t))

  others-action : (label : Text) → others (action_node width label ∷ []) ≡ []
  unfolding others is_section is_action action_node text text_eq starts_with
  others-action label = refl

  others-drawn :
      (title label : Text) (sections : List Text) (old : List Node)
      → others (redraw title label sections old) ≡ kept title old
  unfolding kept
  others-drawn title label sections old =
      ap others (redraw_parts title label sections old)
      ∙ others-append (kept title old ++ drawn sections 0) (action_node width label ∷ [])
      ∙ ap₂ (λ a b. a ++ b) (others-append (kept title old) (drawn sections 0))
          (others-action label)
      ∙ append_none (others (kept title old) ++ others (drawn sections 0))
      ∙ ap (λ l. others (kept title old) ++ l) (others-sections sections)
      ∙ append_none (others (kept title old))
      ∙ others-put_label title (others old)
      ∙ ap (put_label true title) (others_again old)

  -- To draw a screen to its end again, with the same title, sections and label, changes nothing.
  pub redraw-again :
      (title label : Text) (sections : List Text) (old : List Node)
      → redraw title label sections (redraw title label sections old)
        ≡ redraw title label sections old
  unfolding kept
  redraw-again title label sections old =
      redraw_parts title label sections (redraw title label sections old)
      ∙ ap (λ l. (l ++ drawn sections 0) ++ action_node width label ∷ [])
          (ap (put_label true title) (others-drawn title label sections old)
            ∙ put_label_again title (others old))
      ∙ sym (redraw_parts title label sections old)

  without_button : (label : Text) → without is_generated (action_node width label ∷ []) ≡ []
  unfolding is_generated is_section is_action action_node text text_eq starts_with
  without_button label = refl

  without_font :
      (r : Result Done) (stopped : List Node) (rest : Drawn) (expected : List Node)
      → without is_generated stopped ≡ expected
      → without is_generated rest.0 ≡ expected
      → without is_generated (with_font r stopped rest).0 ≡ expected
  unfolding with_font
  without_font (err e) stopped rest expected p q = p
  without_font (ok done) stopped rest expected p q = q

  frame_generated :
      (entry : ℕ × Text) (examples : List Node)
      → is_generated (section_frame width height entry examples) ≡ true
  unfolding section_frame Implies
  frame_generated entry examples =
      section_generated _ (unfold is_section section_frame text starts_with in refl)

  others-add_sections :
      (load : Text → Result Done) (entries : List (ℕ × Text))
      → without is_generated (add_sections load width height entries).0 ≡ []
  unfolding add_sections section_node
  others-add_sections load [] = refl
  others-add_sections load (entry ∷ rest) =
      without_font (examples_font load entry.1) (section_frame width height entry [] ∷ [])
        (
          section_node width height entry ∷ (add_sections load width height rest).0,
          (add_sections load width height rest).1,
        )
        [] (rw (frame_generated entry []) refl)
        (rw (frame_generated entry (examples_of entry.1)) (others-add_sections load rest))

  others-ensure_label :
      (load : Text → Result Done) (title : Text) (old : List Node)
      → without is_generated (ensure_label load true title old).0 ≡ without is_generated old
  unfolding ensure_label
  others-ensure_label load title old =
      without_font (load (text "Semi Bold")) old (put_label true title old, ok tt) _ refl
        (without-put_label is_generated title old label_generated)

  others-ensure_sections :
      (load : Text → Result Done) (sections : List Text) (old : List Node)
      → without is_generated (ensure_sections load width height sections old).0
        ≡ without is_generated old
  unfolding ensure_sections is_section
  others-ensure_sections load sections old =
      let kept = without is_section old in
      let added = add_sections load width height (indexed 0 sections) in
      let same = without_wider is_section is_generated old section_generated in
      without_font (load (text "Regular")) kept (kept ++ added.0, added.1) _ same
        (without-append is_generated kept added.0
          ∙ ap (λ l. without is_generated kept ++ l) (others-add_sections load (indexed 0 sections))
          ∙ append_none _
          ∙ same)

  others-ensure_primary_action :
      (label : Text) (old : List Node)
      → without is_generated (ensure_primary_action width label old) ≡ without is_generated old
  unfolding ensure_primary_action is_action
  others-ensure_primary_action label old =
      without-append is_generated (without is_action old) (action_node width label ∷ [])
      ∙ ap₂ (λ a b. a ++ b) (without_wider is_action is_generated old action_generated)
          (without_button label)
      ∙ append_none _

  others-label_and_sections :
      (load : Text → Result Done) (title : Text) (sections : List Text) (old : List Node)
      → without is_generated (label_and_sections load width height title sections old).0
        ≡ without is_generated old
  unfolding label_and_sections
  others-label_and_sections load title sections old =
      let labelled = ensure_label load true title old in
      let same = others-ensure_label load title old in
      without_font labelled.1 labelled.0 (ensure_sections load width height sections labelled.0) _
        same (others-ensure_sections load sections labelled.0 ∙ same)

  -- Drawing a screen of the mini-program keeps the nodes that are not generated, in their order, also
  -- where it stops because a font is refused.
  pub draw_screen-others :
      (load : Text → Result Done) (title label : Text) (sections : List Text) (old : List Node)
      → without is_generated (draw_screen load width height title sections label old).0
        ≡ without is_generated old
  unfolding draw_screen
  draw_screen-others load title label sections old =
      let drawing = label_and_sections load width height title sections old in
      let same = others-label_and_sections load title sections old in
      without_font drawing.1 drawing.0 (ensure_primary_action width label drawing.0, ok tt) _ same
        (others-ensure_primary_action label drawing.0 ∙ same)
