-- ===== src/Figma/Foundations.antt =====
-- tools/figma-plugin/src/stages/foundations.ts: the stage that draws the tokens.
pub mod Marker
use smart_parcel_locker.Prelude.{
  ℕ, Text, text, text_eq, Bool, true, false, not, ◌&&◌, ◌==◌, any, Option, none, some, List, [],
  ◌∷◌, ◌++◌, map, Result, ok, err, plain_error, ◌>>=◌, if◌then◌else◌,
}
use smart_parcel_locker.Prelude.Int.{ℤ, pos, pos_part}
use smart_parcel_locker.Prelude.Decimal.{print}
use smart_parcel_locker.Figma.{foundations}
use smart_parcel_locker.Figma.Catalog.{design_system, comma_join}
use smart_parcel_locker.Figma.Color.{RgbValue, Fraction}
use smart_parcel_locker.Figma.FoundationContent.{foundation_sections}
use smart_parcel_locker.Figma.Tokens.{
  ColorToken, DimensionToken, color_tokens, dimension_tokens, token_css_syntax,
}
use smart_parcel_locker.Figma.Requests.{
  Value, number, word, words, color, fraction, ResourceSpec, Request, upsert_variable_collection,
  upsert_variable, upsert_text_style, upsert_effect_style, upsert_screen, page_request,
}
use smart_parcel_locker.Figma.Stages.{Done, FigmaPort, FontDescriptor, Ending, begin}

-- `REQUIRED_FONTS`
unfoldable pub required_fonts : List FontDescriptor
required_fonts =
    record { family = text "Inter"; style = text "Regular" }
    ∷ record { family = text "Inter"; style = text "Medium" }
    ∷ record { family = text "Inter"; style = text "Semi Bold" }
    ∷ record { family = text "Inter"; style = text "Bold" }
    ∷ []

abbrev text_style : Text → Text → Text → ℕ → ℕ → ResourceSpec
text_style key name style size line_height = record {
  key = key;
  name = name;
  properties =
      (text "family", word (text "Inter"))
      ∷ (text "style", word style)
      ∷ (text "size", number size)
      ∷ (text "lineHeight", number line_height)
      ∷ [];
}

-- `TEXT_STYLES`; all of them are of the family Inter.
unfoldable pub text_styles : List ResourceSpec
text_styles =
    text_style (text "text/display") (text "Display") (text "Bold") 32 40
    ∷ text_style (text "text/heading-1") (text "Heading/1") (text "Semi Bold") 24 32
    ∷ text_style (text "text/heading-2") (text "Heading/2") (text "Semi Bold") 20 28
    ∷ text_style (text "text/body") (text "Body") (text "Regular") 14 22
    ∷ text_style (text "text/label") (text "Label") (text "Medium") 14 20
    ∷ text_style (text "text/caption") (text "Caption") (text "Regular") 12 18
    ∷ text_style (text "text/number") (text "Number") (text "Semi Bold") 28 36
    ∷ []

hundredths : ℕ → Value
hundredths n = fraction (record { top = pos n; bottom = 100 })

effect_style : Text → Text → ℕ → ℕ → List (Text × Value) → ℕ → ResourceSpec
unfolding hundredths
effect_style key name y blur spread opacity = record {
  key = key;
  name = name;
  properties =
      (text "x", number 0)
      ∷ (text "y", number y)
      ∷ (text "blur", number blur)
      ∷ (spread ++ (text "opacity", hundredths opacity) ∷ []);
}

-- `EFFECT_STYLES`; the opacity in hundredths.
unfoldable pub effect_styles : List ResourceSpec
unfolding effect_style
effect_styles =
    effect_style (text "effect/card") (text "Shadow/Card") 2 8 [] 8
    ∷ effect_style (text "effect/floating") (text "Shadow/Floating") 8 24 [] 12
    ∷ effect_style (text "effect/modal") (text "Shadow/Modal") 16 40 [] 16
    ∷ effect_style (text "effect/focus") (text "Focus/Primary") 0 0 ((text "spread", number 3) ∷ [])
        20
    ∷ []

collection_request : Text → Text → Text → Request
collection_request key name mode =
    upsert_variable_collection
      (record { key = key; name = name; properties = (text "modes", words (mode ∷ [])) ∷ [] })

collection_requests : List Request
unfolding collection_request
collection_requests =
    collection_request (text "collection/primitive-color") (text "Primitives / Color")
      (text "Light")
    ∷ collection_request (text "collection/semantic-color") (text "Semantic / Color") (text "Light")
    ∷ collection_request (text "collection/dimension") (text "Dimension") (text "Default")
    ∷ []

-- `s.startsWith(prefix)`
unfoldable pub starts_with : Text → Text → Bool
starts_with [] s = true
starts_with (c ∷ prefix) [] = false
starts_with (c ∷ prefix) (d ∷ s) = c == d && starts_with prefix s

-- A property that may be `undefined`.
abbrev optional : {A : Type 0} → Text → (A → Value) → Option A → List (Text × Value)
optional name f none = []
optional name f (some a) = (name, f a) ∷ []

variable_spec : Text → Text → Text → List (Text × Value) → List Text → ResourceSpec
variable_spec name collection type value scopes = record {
  key = text "variable/" ++ name;
  name = name;
  properties =
      (text "collectionKey", word collection)
      ∷ (text "type", word type)
      ∷ (value
          ++ (text "scopes", words scopes)
            ∷ (text "codeSyntax", word (token_css_syntax name))
            ∷ []);
}

color_request : ColorToken → Request
unfolding starts_with variable_spec
color_request token = upsert_variable (
    variable_spec token.name
      (if starts_with (text "primitive/") token.name
        then text "collection/primitive-color"
        else text "collection/semantic-color")
      (text "COLOR")
      (optional (text "value") color token.value ++ optional (text "alias") word token.alias)
      token.scopes)

dimension_request : DimensionToken → Request
unfolding variable_spec
dimension_request token = upsert_variable (
    variable_spec token.name (text "collection/dimension") (text "FLOAT")
      ((text "value", number (pos_part token.value)) ∷ []) token.scopes)

documentation_request : Request
documentation_request = upsert_screen (record {
  key = text "screen/foundations/documentation";
  name = text "Foundations / Documentation";
  properties =
      (text "pageKey", word design_system.key)
      ∷ (text "width", number 1440)
      ∷ (text "height", number 1800)
      ∷ (text "x", number 80)
      ∷ (text "y", number 80)
      ∷ (text "sections", words foundation_sections)
      ∷ [];
})

-- The requests of `runFoundations`
unfoldable pub foundation_requests : List Request
unfolding page_request collection_requests color_request dimension_request documentation_request
foundation_requests =
    page_request design_system
    ∷ (collection_requests
        ++ (map color_request color_tokens
            ++ (map dimension_request dimension_tokens
                ++ (map upsert_text_style text_styles
                    ++ (map upsert_effect_style effect_styles ++ documentation_request ∷ [])))))

same_font : FontDescriptor → FontDescriptor → Bool
same_font required font = text_eq font.family required.family && text_eq font.style required.style

-- `REQUIRED_FONTS.filter((required) => !available.some(…))`
unfoldable pub missing_fonts : List FontDescriptor → List FontDescriptor → List FontDescriptor
unfolding same_font
missing_fonts available [] = []
missing_fonts available (required ∷ rest) =
    let later = missing_fonts available rest in
    if any (same_font required) available then later else required ∷ later

abbrev none_or_throw : List FontDescriptor → Result Done
none_or_throw [] = ok tt
none_or_throw (font ∷ rest) = err (
    plain_error (
      text "Missing required fonts: "
      ++ comma_join
          (map (λ (f : FontDescriptor). f.family ++ (text " " ++ f.style)) (font ∷ rest))))

module _ {S : Type 0} (port : FigmaPort S Request) where
  unfoldable pub check_fonts : S → Result Done
  unfolding missing_fonts
  check_fonts file = port.list_available_fonts file >>= λ available.
      none_or_throw (missing_fonts available required_fonts)

  -- `runFoundations`
  unfoldable pub run_foundations : S → Ending S
  unfolding begin
  run_foundations file = begin port foundations foundation_requests file (check_fonts file)
