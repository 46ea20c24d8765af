-- ===== src/Figma/Adapter/Port.antt =====
-- tools/figma-plugin/src/figma/adapter.ts: the adapter as the port of a stage, for the requests of
-- pages, variables and styles.
use smart_parcel_locker.Prelude.{List, Result, ok}
use smart_parcel_locker.Figma.Requests.{ResourceSpec}
use smart_parcel_locker.Figma.Stages.{FigmaPort, FontDescriptor}
use smart_parcel_locker.Figma.Document.{
  Document, Place, pages, collections, variables, text_styles, effect_styles,
}
use smart_parcel_locker.Figma.Adapter.{
  Calls, Answer, upsert_page, upsert_variable_collection, has_stage_marker, set_stage_marker,
}
use smart_parcel_locker.Figma.Adapter.Variables.{upsert_variable}
use smart_parcel_locker.Figma.Adapter.Styles.{upsert_text_style, upsert_effect_style}

module _ {S : Type 0} (d : Document S) (c : Calls d) where
  -- The upsert of a place.
  unfoldable pub upsert_in : Place → ResourceSpec → S → Answer S
  upsert_in pages = upsert_page d c
  upsert_in collections = upsert_variable_collection d c
  upsert_in variables = upsert_variable d c
  upsert_in text_styles = upsert_text_style d c
  upsert_in effect_styles = upsert_effect_style d c

  -- `RealFigmaAdapter`; the fonts that the API lists are an argument.
  abbrev pub adapter : (S → Result (List FontDescriptor)) → FigmaPort S (Place × ResourceSpec)
  adapter fonts = record {
    list_available_fonts = fonts;
    has_stage_marker = λ stage s. ok (has_stage_marker d c stage s);
    set_stage_marker = λ stage s. (set_stage_marker d c stage s, ok tt);
    upsert = λ request s. upsert_in request.0 request.1 s;
  }
