-- ===== src/Figma/Adapter/Filled.antt =====
-- Filling a variable or a style leaves the marks of all resources.
use smart_parcel_locker.Prelude.{
  Text, Option, none, some, List, Result, ok, err, Failure, Holds, ◌≡◌, refl, ◌⊎◌, inl, inr,
}
use smart_parcel_locker.Figma.{ResourceOutcome, ResourceResult, failed}
use smart_parcel_locker.Figma.Requests.{ResourceSpec}
use smart_parcel_locker.Figma.Stages.{Done, FontDescriptor}
use smart_parcel_locker.Figma.Document.{Document, SameMarks, find}
use smart_parcel_locker.Figma.Adapter.{Calls, Answer, VariableValue, alias_of, named, as_is, result}
use smart_parcel_locker.Figma.Adapter.Variables.{
  with_syntax, with_value, valued_variable, aliased, alias_step, in_mode, fill_variable,
}
use smart_parcel_locker.Figma.Adapter.Styles.{with_font, fill_text_style, fill_effect_style}
use smart_parcel_locker.Figma.Adapter.Rerun.{
  Fills, SameMarks-refl, SameMarks-trans, set_name-SameMarks,
}

module _ {S : Type 0} (d : Document S) (c : Calls d) (spec : ResourceSpec) where
  -- From one state to an answer, the marks stay, and the outcome is the given one, or an error.
  pub FillsFrom : S → ResourceOutcome → Answer S → Type 0
  FillsFrom s outcome answer =
      SameMarks d s answer.0
      × Holds (λ (r : ResourceResult). (r.outcome ≡ outcome) ⊎ (r.outcome ≡ failed)) answer.1

  refused : (s : S) (outcome : ResourceOutcome) (e : Failure) → FillsFrom s outcome (s, err e)
  unfolding FillsFrom
  refused s outcome e = (SameMarks-refl d s, tt)

  failing :
      (s : S) (outcome : ResourceOutcome) (id message : Option Text)
      → FillsFrom s outcome (s, ok (result spec.key failed id message))
  unfolding FillsFrom result
  failing s outcome id message = (SameMarks-refl d s, inr refl)

  Fills-of_from :
      (fill : ResourceOutcome → Text → S → Answer S)
      → ((outcome : ResourceOutcome) (id : Text) (s : S) → FillsFrom s outcome (fill outcome id s))
      → Fills d fill
  unfolding Fills FillsFrom
  Fills-of_from fill h = h

  FillsFrom-trans :
      (s next : S) (outcome : ResourceOutcome) (answer : Answer S)
      → SameMarks d s next
      → FillsFrom next outcome answer
      → FillsFrom s outcome answer
  unfolding FillsFrom
  FillsFrom-trans s next outcome answer same (rest, h) =
      (SameMarks-trans d s next answer.0 same rest, h)

  pub named-Fills : Fills d (named d c spec)
  unfolding Fills named result
  named-Fills outcome id s = (set_name-SameMarks d id spec.name s, inl refl)

  as_is-Fills :
      (outcome : ResourceOutcome) (id : Text) (s : S)
      → FillsFrom s outcome (as_is d c spec outcome id s)
  unfolding FillsFrom as_is result
  as_is-Fills outcome id s = (SameMarks-refl d s, inl refl)

  with_syntax-SameMarks :
      (id : Text) (syntax : Option Text) (s : S) → SameMarks d s (with_syntax d c spec id syntax s)
  with_syntax-SameMarks id none s = SameMarks-refl d s
  with_syntax-SameMarks id (some syntax) s = c.syntax_marks id syntax s

  with_value-SameMarks :
      (id mode : Text) (value : Option VariableValue) (s : S)
      → SameMarks d s (with_value d c id mode value s)
  with_value-SameMarks id mode none s = SameMarks-refl d s
  with_value-SameMarks id mode (some value) s = c.value_marks id mode value s

  valued-Fills :
      (outcome : ResourceOutcome) (id mode : Text) (value : Option VariableValue) (s : S)
      → FillsFrom s outcome (valued_variable d c spec outcome id mode value s)
  unfolding valued_variable
  valued-Fills outcome id mode value s =
      FillsFrom-trans s _ outcome _ (with_value-SameMarks id mode value s)
        (FillsFrom-trans _ _ outcome _ (with_syntax-SameMarks id _ _) (as_is-Fills outcome id _))

  aliased-Fills :
      (outcome : ResourceOutcome) (id mode alias : Text) (target : Option Text) (s : S)
      → FillsFrom s outcome (aliased d c spec outcome id mode alias target s)
  unfolding aliased
  aliased-Fills outcome id mode alias (some target) s =
      valued-Fills outcome id mode (some (alias_of target)) s
  aliased-Fills outcome id mode alias none s = failing s outcome (some id) _

  alias_step-Fills :
      (outcome : ResourceOutcome) (id mode : Text) (listed : List Text)
      (value : Option VariableValue) (alias : Option Text) (s : S)
      → FillsFrom s outcome (alias_step d c spec outcome id mode listed value alias s)
  unfolding alias_step
  alias_step-Fills outcome id mode listed value none s = valued-Fills outcome id mode value s
  alias_step-Fills outcome id mode listed value (some alias) s =
      aliased-Fills outcome id mode alias (find _ listed) s

  in_mode-Fills :
      (outcome : ResourceOutcome) (id : Text) (listed : List Text) (mode : Option Text) (s : S)
      → FillsFrom s outcome (in_mode d c spec outcome id listed mode s)
  unfolding in_mode
  in_mode-Fills outcome id listed none s = failing s outcome (some id) _
  in_mode-Fills outcome id listed (some mode) s = alias_step-Fills outcome id mode listed _ _ s

  pub fill_variable-Fills : (listed : List Text) → Fills d (fill_variable d c spec listed)
  unfolding fill_variable
  fill_variable-Fills listed = Fills-of_from _ (λ outcome id s.
      FillsFrom-trans s (d.set_name id spec.name s) outcome _ (set_name-SameMarks d id spec.name s)
        (FillsFrom-trans _ _ outcome _ (c.scopes_marks id _ _)
          (in_mode-Fills outcome id listed _ _)))

  with_font-Fills :
      (outcome : ResourceOutcome) (id : Text) (font : FontDescriptor) (loaded : Result Done) (s : S)
      → FillsFrom s outcome (with_font d c spec outcome id font loaded s)
  unfolding with_font
  with_font-Fills outcome id font (err e) s = refused s outcome e
  with_font-Fills outcome id font (ok done) s =
      FillsFrom-trans s (d.set_name id spec.name s) outcome _ (set_name-SameMarks d id spec.name s)
        (FillsFrom-trans _ _ outcome _ (c.font_marks id font _ _ _) (as_is-Fills outcome id _))

  pub fill_text_style-Fills : Fills d (fill_text_style d c spec)
  unfolding fill_text_style
  fill_text_style-Fills = Fills-of_from _ (λ outcome id s. with_font-Fills outcome id _ _ s)

  pub fill_effect_style-Fills : Fills d (fill_effect_style d c spec)
  unfolding fill_effect_style
  fill_effect_style-Fills = Fills-of_from _ (λ outcome id s.
      FillsFrom-trans s (d.set_name id spec.name s) outcome _ (set_name-SameMarks d id spec.name s)
        (FillsFrom-trans _ _ outcome _ (c.shadow_marks id _ _) (as_is-Fills outcome id _)))
