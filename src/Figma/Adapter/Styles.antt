-- ===== src/Figma/Adapter/Styles.antt =====
-- tools/figma-plugin/src/figma/adapter.ts: the styles of texts and of effects.
use smart_parcel_locker.Prelude.{Text, text, none, some, ◌or◌, Result, ok, err}
use smart_parcel_locker.Figma.{ResourceOutcome, failed}
use smart_parcel_locker.Figma.Requests.{number, ResourceSpec}
use smart_parcel_locker.Figma.Stages.{Done, FontDescriptor}
use smart_parcel_locker.Figma.Document.{Document, text_styles, effect_styles, obtain}
use smart_parcel_locker.Figma.Adapter.{
  Calls, Answer, Shadow, property, result, string, settle, conflict_with, silent_conflict, as_is,
}

module _ {S : Type 0} (d : Document S) (c : Calls d) where
  -- The font is loaded first; where it cannot be, the style stays as it is.
  unfoldable pub with_font :
      ResourceSpec → ResourceOutcome → Text → FontDescriptor → Result Done → S → Answer S
  unfolding as_is property
  with_font spec outcome id font (err e) s = (s, err e)
  with_font spec outcome id font (ok done) s = as_is d c spec outcome id (
      c.set_font id font (property (text "size") spec.properties)
        (property (text "lineHeight") spec.properties) (d.set_name id spec.name s))

  unfoldable pub fill_text_style : ResourceSpec → ResourceOutcome → Text → S → Answer S
  unfolding with_font property
  fill_text_style spec outcome id s =
      let font : FontDescriptor = record {
        family = string d c (property (text "family") spec.properties);
        style = string d c (property (text "style") spec.properties);
      } in
      with_font spec outcome id font (c.load_font font s) s

  -- `upsertTextStyle`
  unfoldable pub upsert_text_style : ResourceSpec → S → Answer S
  unfolding fill_text_style conflict_with result
  upsert_text_style spec s =
      settle d c s
        (obtain d (λ file. some (c.create_text_style file)) text_styles spec.key spec.name s)
        (conflict_with d c (text "Unowned text style exists: ") spec)
        (result spec.key failed none none) (fill_text_style spec)

  unfoldable pub fill_effect_style : ResourceSpec → ResourceOutcome → Text → S → Answer S
  unfolding as_is property
  fill_effect_style spec outcome id s =
      let shadow : Shadow = record {
        opacity = property (text "opacity") spec.properties;
        x = property (text "x") spec.properties;
        y = property (text "y") spec.properties;
        blur = property (text "blur") spec.properties;
        spread = property (text "spread") spec.properties or number 0;
      } in
      as_is d c spec outcome id (c.set_shadow id shadow (d.set_name id spec.name s))

  -- `upsertEffectStyle`
  unfoldable pub upsert_effect_style : ResourceSpec → S → Answer S
  unfolding fill_effect_style silent_conflict result
  upsert_effect_style spec s =
      settle d c s
        (obtain d (λ file. some (c.create_effect_style file)) effect_styles spec.key spec.name s)
        (silent_conflict d c spec) (result spec.key failed none none) (fill_effect_style spec)
