-- ===== src/Figma/Tokens.antt =====
-- tools/figma-plugin/src/domain/tokens.ts: the tokens of the design and their check.
pub mod Lists
pub mod Names
pub mod Valid
use smart_parcel_locker.Prelude.{
  ℕ, suc, ◌+◌, ◌==◌, ltb, leb, Text, text, text_eq, is_space, truthy, Bool, true, false, not, ◌&&◌,
  ◌||◌, any, Option, none, some, is_some, List, [], ◌∷◌, ◌++◌, map, length, if◌then◌else◌,
}
use smart_parcel_locker.Prelude.Int.{ℤ, pos, is_negative}
use smart_parcel_locker.Prelude.Decimal.{print}
use smart_parcel_locker.Figma.Color.{RgbValue, rgb, below_zero, above_one}
use smart_parcel_locker.Figma.Catalog.{distinct}

pub record ColorToken : Type 0 where
  pub name : Text
  pub value : Option RgbValue
  pub alias : Option Text
  pub scopes : List Text

pub record DimensionToken : Type 0 where
  pub name : Text
  pub value : ℤ
  pub scopes : List Text

unfoldable pub fill_scopes : List Text
fill_scopes = text "FRAME_FILL" ∷ text "SHAPE_FILL" ∷ []

unfoldable pub text_scope : List Text
text_scope = text "TEXT_FILL" ∷ []

unfoldable pub stroke_scope : List Text
stroke_scope = text "STROKE_COLOR" ∷ []

valued : Text → Text → List Text → ColorToken
valued name hex scopes = record {
  name = name;
  value = some (rgb hex);
  alias = none;
  scopes = scopes;
}

aliased : Text → Text → List Text → ColorToken
aliased name target scopes = record {
  name = name;
  value = none;
  alias = some target;
  scopes = scopes;
}

-- `COLOR_TOKENS`
unfoldable pub color_tokens : List ColorToken
unfolding valued aliased
color_tokens =
    valued (text "primitive/blue/50") (text "E6F4FF") fill_scopes
    ∷ valued (text "primitive/blue/100") (text "BAE0FF") fill_scopes
    ∷ valued (text "primitive/blue/500") (text "1677FF") fill_scopes
    ∷ valued (text "primitive/blue/600") (text "0958D9") fill_scopes
    ∷ valued (text "primitive/gray/0") (text "FFFFFF") fill_scopes
    ∷ valued (text "primitive/gray/50") (text "F7F9FC") fill_scopes
    ∷ valued (text "primitive/gray/100") (text "F0F2F5") fill_scopes
    ∷ valued (text "primitive/gray/300") (text "D0D5DD") fill_scopes
    ∷ valued (text "primitive/gray/500") (text "667085") fill_scopes
    ∷ valued (text "primitive/gray/700") (text "344054") fill_scopes
    ∷ valued (text "primitive/gray/900") (text "101828") fill_scopes
    ∷ valued (text "primitive/green/500") (text "12B76A") fill_scopes
    ∷ valued (text "primitive/orange/500") (text "F79009") fill_scopes
    ∷ valued (text "primitive/red/500") (text "F04438") fill_scopes
    ∷ valued (text "primitive/slate/500") (text "64748B") fill_scopes
    ∷ aliased (text "color/bg/canvas") (text "primitive/gray/50") fill_scopes
    ∷ aliased (text "color/bg/surface") (text "primitive/gray/0") fill_scopes
    ∷ aliased (text "color/bg/primary") (text "primitive/blue/500") fill_scopes
    ∷ aliased (text "color/bg/navigation") (text "primitive/gray/900") fill_scopes
    ∷ aliased (text "color/action/primary") (text "primitive/blue/500") fill_scopes
    ∷ aliased (text "color/action/primary-hover") (text "primitive/blue/600") fill_scopes
    ∷ aliased (text "color/action/disabled") (text "primitive/gray/300") fill_scopes
    ∷ aliased (text "color/text/primary") (text "primitive/gray/900") text_scope
    ∷ aliased (text "color/text/secondary") (text "primitive/gray/500") text_scope
    ∷ aliased (text "color/text/inverse") (text "primitive/gray/0") text_scope
    ∷ aliased (text "color/border/default") (text "primitive/gray/300") stroke_scope
    ∷ aliased (text "color/border/focus") (text "primitive/blue/500") stroke_scope
    ∷ aliased (text "color/status/success") (text "primitive/green/500") fill_scopes
    ∷ aliased (text "color/status/warning") (text "primitive/orange/500") fill_scopes
    ∷ aliased (text "color/status/danger") (text "primitive/red/500") fill_scopes
    ∷ aliased (text "color/status/offline") (text "primitive/slate/500") fill_scopes
    ∷ aliased (text "color/status/processing") (text "primitive/blue/500") fill_scopes
    ∷ []

dimension : Text → ℕ → Text → DimensionToken
dimension name value scope = record { name = name; value = pos value; scopes = scope ∷ [] }

space_token : ℕ → DimensionToken
unfolding dimension
space_token value = dimension (text "space/" ++ print value) value (text "GAP")

-- `DIMENSION_TOKENS`
unfoldable pub dimension_tokens : List DimensionToken
unfolding dimension space_token
dimension_tokens =
    map space_token (0 ∷ 4 ∷ 8 ∷ 12 ∷ 16 ∷ 20 ∷ 24 ∷ 32 ∷ 40 ∷ 48 ∷ [])
    ++ dimension (text "radius/0") 0 (text "CORNER_RADIUS")
      ∷ dimension (text "radius/4") 4 (text "CORNER_RADIUS")
      ∷ dimension (text "radius/8") 8 (text "CORNER_RADIUS")
      ∷ dimension (text "radius/12") 12 (text "CORNER_RADIUS")
      ∷ dimension (text "radius/16") 16 (text "CORNER_RADIUS")
      ∷ dimension (text "radius/24") 24 (text "CORNER_RADIUS")
      ∷ dimension (text "radius/full") 999 (text "CORNER_RADIUS")
      ∷ dimension (text "size/control/small") 32 (text "WIDTH_HEIGHT")
      ∷ dimension (text "size/control/medium") 40 (text "WIDTH_HEIGHT")
      ∷ dimension (text "size/control/large") 48 (text "WIDTH_HEIGHT")
      ∷ dimension (text "stroke/default") 1 (text "STROKE_FLOAT")
      ∷ []

-- `toLowerCase()` of ASCII letters, then `replaceAll("/", "-").replaceAll(" ", "-")`
css_unit : ℕ → ℕ
css_unit c =
    if leb b'A' c && leb c b'Z'
    then c + 32
    else if c == b'/'
    then b'-'
    else if c == b' '
    then b'-'
    else c

-- `tokenCssSyntax`
unfoldable pub token_css_syntax : Text → Text
unfolding css_unit
token_css_syntax name = text "var(--" ++ (map css_unit name ++ text ")")

-- `if (broken) errors.push(…)`
unfoldable pub error_if : Bool → Text → List Text
error_if broken message = if broken then message ∷ [] else []

-- The errors of a loop, item by item.
unfoldable pub errors_of : {A : Type 0} → (A → List Text) → List A → List Text
errors_of f [] = []
errors_of f (a ∷ rest) = f a ++ errors_of f rest

-- `names.filter((candidate) => candidate === name).length`
unfoldable pub occurrences : Text → List Text → ℕ
occurrences name [] = 0
occurrences name (candidate ∷ rest) =
    let later = occurrences name rest in if text_eq candidate name then suc later else later

unfoldable pub name_errors : List Text → Text → List Text
unfolding error_if occurrences
name_errors all_names name =
    error_if (not (any (◌==◌ b'/') name) || any is_space name) (text "invalid token name: " ++ name)
    ++ error_if (ltb 1 (occurrences name all_names)) (text "duplicate token: " ++ name)

abbrev pub same : Bool → Bool → Bool
same true b = b
same false b = not b

-- `token.value && Object.values(token.value).some((channel) => channel < 0 || channel > 1)`
abbrev pub has_bad_channel : Option RgbValue → Bool
has_bad_channel none = false
has_bad_channel (some c) =
    (below_zero c.r || above_one c.r)
    || ((below_zero c.g || above_one c.g) || (below_zero c.b || above_one c.b))

-- `token.alias && !colorNames.has(token.alias)`
abbrev pub lacks_target : List Text → Option Text → Bool
lacks_target names none = false
lacks_target names (some target) = truthy target && not (any (text_eq target) names)

abbrev pub is_empty : List Text → Bool
is_empty [] = true
is_empty (scope ∷ scopes) = false

unfoldable pub color_errors : List Text → ColorToken → List Text
unfolding error_if
color_errors color_names token =
    error_if (same (not (is_some token.value)) (not (is_some token.alias)))
      (text "color must define value or alias: " ++ token.name)
    ++ (error_if (has_bad_channel token.value) (text "invalid color channel: " ++ token.name)
        ++ (error_if (lacks_target color_names token.alias)
              (text "missing alias target: " ++ token.name)
            ++ error_if (is_empty token.scopes) (text "missing color scope: " ++ token.name)))

unfoldable pub dimension_errors : DimensionToken → List Text
unfolding error_if
dimension_errors token =
    error_if (is_negative token.value) (text "negative dimension: " ++ token.name)
    ++ error_if (is_empty token.scopes) (text "missing dimension scope: " ++ token.name)

unfoldable pub color_names : List ColorToken → List Text
color_names colors = map (λ (token : ColorToken). token.name) colors

unfoldable pub all_names : List ColorToken → List DimensionToken → List Text
unfolding color_names
all_names colors dimensions =
    color_names colors ++ map (λ (token : DimensionToken). token.name) dimensions

-- `validateTokens`, for any two tables
unfoldable pub validate : List ColorToken → List DimensionToken → List Text
unfolding errors_of name_errors color_errors dimension_errors all_names color_names
validate colors dimensions = distinct [] (
    errors_of (name_errors (all_names colors dimensions)) (all_names colors dimensions)
    ++ (errors_of (color_errors (color_names colors)) colors
        ++ errors_of dimension_errors dimensions))

-- `validateTokens`
unfoldable pub validate_tokens : List Text
unfolding validate
validate_tokens = validate color_tokens dimension_tokens
