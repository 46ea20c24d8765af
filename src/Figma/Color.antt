-- ===== src/Figma/Color.antt =====
-- tools/figma-plugin/src/figma/adapter-helpers.ts: colours, the scopes of variables, and the look of a
-- section. Fractions are exact; the comparisons with 0 and 1 do not depend on the rounding.
use smart_parcel_locker.Prelude.{
  ℕ, zero, suc, ◌+◌, ◌-◌, ◌*◌, ◌%◌, ◌==◌, ltb, leb, Text, text, text_eq, Bool, true, false, ◌&&◌,
  ◌||◌, any, Option, none, some, List, [], ◌∷◌, if◌then◌else◌,
}
use smart_parcel_locker.Prelude.Int.{ℤ, pos, pos_part, is_negative}

-- `top / bottom`, where the bottom is positive.
pub record Fraction : Type 0 where
  pub top : ℤ
  pub bottom : ℕ

-- A channel; `none` is `NaN`, with which every comparison is false.
abbrev pub Channel : Type 0
Channel = Option Fraction

-- `RGBValue`, and the `RGB` of Figma
pub record RgbValue : Type 0 where
  pub r : Channel
  pub g : Channel
  pub b : Channel

-- `n / d`
unfoldable pub over : ℕ → ℕ → Channel
over n d = some (record { top = pos n; bottom = d })

-- `channel > 1`
unfoldable pub above_one : Channel → Bool
above_one none = false
above_one (some c) = ltb c.bottom (pos_part c.top)

-- `channel < 0`
unfoldable pub below_zero : Channel → Bool
below_zero none = false
below_zero (some c) = is_negative c.top

is_nan : Channel → Bool
is_nan none = true
is_nan (some c) = false

-- `Math.max(r, g, b) > 1`, where the maximum is `NaN` if a channel is
any_above_one : RgbValue → Bool
unfolding is_nan above_one
any_above_one color =
    if is_nan color.r || (is_nan color.g || is_nan color.b)
    then false
    else above_one color.r || (above_one color.g || above_one color.b)

divided : ℕ → Channel → Channel
divided d none = none
divided d (some c) = some (record { top = c.top; bottom = c.bottom * d })

-- `normalizeColor`
unfoldable pub normalize_color : RgbValue → RgbValue
unfolding any_above_one divided
normalize_color color =
    let divisor = if any_above_one color then 255 else 1 in
    record { r = divided divisor color.r; g = divided divisor color.g; b = divided divisor color.b }

-- `VALID_SCOPES`
unfoldable pub valid_scopes : List Text
valid_scopes =
    text "TEXT_CONTENT"
    ∷ text "CORNER_RADIUS"
    ∷ text "WIDTH_HEIGHT"
    ∷ text "GAP"
    ∷ text "ALL_FILLS"
    ∷ text "FRAME_FILL"
    ∷ text "SHAPE_FILL"
    ∷ text "TEXT_FILL"
    ∷ text "STROKE_COLOR"
    ∷ text "STROKE_FLOAT"
    ∷ text "EFFECT_FLOAT"
    ∷ text "EFFECT_COLOR"
    ∷ text "OPACITY"
    ∷ text "FONT_FAMILY"
    ∷ text "FONT_STYLE"
    ∷ text "FONT_WEIGHT"
    ∷ text "FONT_SIZE"
    ∷ text "LINE_HEIGHT"
    ∷ text "LETTER_SPACING"
    ∷ []

-- `toVariableScopes`
unfoldable pub to_variable_scopes : List Text → List Text
unfolding valid_scopes
to_variable_scopes [] = []
to_variable_scopes (scope ∷ scopes) =
    let rest = to_variable_scopes scopes in
    if any (text_eq scope) valid_scopes then scope ∷ rest else rest

-- The digit of a code unit in base 16, `none` if it is no digit.
unfoldable pub hex_digit : ℕ → Option ℕ
hex_digit c =
    if leb b'0' c && leb c b'9'
    then some (c - b'0')
    else if leb b'A' c && leb c b'F'
    then some (c - b'A' + 10)
    else if leb b'a' c && leb c b'f'
    then some (c - b'a' + 10)
    else none

abbrev shifted : Option ℕ → ℕ → ℕ
shifted none d = d
shifted (some n) d = n * 16 + d

abbrev next_digit : Option ℕ → Option ℕ → Option ℕ
next_digit before none = none
next_digit before (some d) = some (shifted before d)

abbrev parsed : Option ℕ → Option ℕ → Option ℕ → Option ℕ
parsed rest before none = before
parsed rest before (some d) = rest

-- `Number.parseInt(s, 16)` for text without spaces and signs: the digits at the start, behind those
-- that make `before`.
unfoldable pub parse_hex : Option ℕ → Text → Option ℕ
unfolding hex_digit
parse_hex before [] = before
parse_hex before (c ∷ s) =
    let digit = hex_digit c in parsed (parse_hex (next_digit before digit) s) before digit

unfoldable pub channel : Option ℕ → Channel
unfolding over
channel none = none
channel (some n) = over n 255

-- `hex.replace("#", "")`: the first one
unfoldable pub without_hash : Text → Text
without_hash [] = []
without_hash (c ∷ s) = let rest = without_hash s in if c == b'#' then s else c ∷ rest

-- `s.slice(from, from + 2)`
unfoldable pub two_from : ℕ → Text → Text
two_from zero [] = []
two_from zero (a ∷ []) = a ∷ []
two_from zero (a ∷ b ∷ s) = a ∷ b ∷ []
two_from (suc n) [] = []
two_from (suc n) (a ∷ s) = two_from n s

-- `rgb`, `hexColor`
unfoldable pub rgb : Text → RgbValue
unfolding channel parse_hex without_hash two_from
rgb hex =
    let value = without_hash hex in
    record {
      r = channel (parse_hex none (two_from 0 value));
      g = channel (parse_hex none (two_from 2 value));
      b = channel (parse_hex none (two_from 4 value));
    }

-- What `sectionVisualSpec` returns.
pub record SectionVisual : Type 0 where
  pub height : ℕ
  pub fill : RgbValue
  pub stroke : RgbValue
  pub stroke_weight : ℕ

-- `sectionVisualSpec`
unfoldable pub section_visual_spec : ℕ → ℕ → SectionVisual
unfolding over
section_visual_spec parent_width index = record {
  height = if ltb parent_width 500 then 96 else 160;
  fill =
      if index % 2 == 0
      then record { r = over 1 1; g = over 1 1; b = over 1 1 }
      else record { r = over 9 10; g = over 95 100; b = over 1 1 };
  stroke = record { r = over 8 10; g = over 86 100; b = over 94 100 };
  stroke_weight = 1;
}
