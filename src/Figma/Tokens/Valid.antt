-- ===== src/Figma/Tokens/Valid.antt =====
-- What the check of the tokens establishes.
use smart_parcel_locker.Prelude.{
  ℕ, ◌≤◌, ◌==◌, ==_iff, ltb, Text, text, text_eq, text_eq_iff, is_space, true, false, not, ◌||◌,
  any, All, Option, none, some, is_some, List, [], ◌∷◌, ◌++◌, Memᴰ, ◌≡◌, ◌≢◌, ◌↔◌, refl, arith,
}
use smart_parcel_locker.Prelude.Decimal.{print}
use smart_parcel_locker.Prelude.Int.{pos_part, is_negative}
use smart_parcel_locker.Figma.Color.{Channel, RgbValue, rgb, below_zero, above_one}
use smart_parcel_locker.Figma.Catalog.{distinct}
use smart_parcel_locker.Figma.Tokens.{
  ColorToken, DimensionToken, occurrences, name_errors, same, has_bad_channel, lacks_target,
  is_empty, color_errors, dimension_errors, color_names, all_names, validate, validate_tokens,
  fill_scopes, text_scope, stroke_scope, color_tokens, dimension_tokens,
}
use smart_parcel_locker.Figma.Tokens.Lists.{
  error_if_iff, trans_iff, both_iff, errors_of_iff, All-iff, distinct_iff, or_false, not-false,
  false_ne, any-false_iff, any-true_iff,
}
use smart_parcel_locker.Figma.Tokens.Names.{Distinct, Once-iff}

-- A name of a token has a slash and no space.
pub IsTokenName : Text → Type 0
IsTokenName name = Memᴰ b'/' name × ((c : ℕ) → Memᴰ c name → is_space c ≡ false)

-- A channel that is a number lies between 0 and 1.
abbrev pub InUnit : Channel → Type 0
InUnit none = Unit
InUnit (some c) = (is_negative c.top ≡ false) × (pos_part c.top ≤ c.bottom)

abbrev pub Fits : Option RgbValue → Type 0
Fits none = Unit
Fits (some c) = InUnit c.r × InUnit c.g × InUnit c.b

-- A colour has either a value or another token that it stands for.
abbrev pub OneOf : Option RgbValue → Option Text → Type 0
OneOf none none = ⊥
OneOf none (some b) = Unit
OneOf (some a) none = Unit
OneOf (some a) (some b) = ⊥

abbrev pub HasTarget : List Text → Option Text → Type 0
HasTarget names none = Unit
HasTarget names (some []) = Unit
HasTarget names (some (c ∷ target)) = Memᴰ (c ∷ target) names

pub IsColorToken : List Text → ColorToken → Type 0
IsColorToken names token =
    OneOf token.value token.alias
    × (Fits token.value × (HasTarget names token.alias × (token.scopes ≢ [])))

pub IsDimensionToken : DimensionToken → Type 0
IsDimensionToken token = (is_negative token.value ≡ false) × (token.scopes ≢ [])

pub WellFormed : List ColorToken → List DimensionToken → Type 0
WellFormed colors dimensions =
    (All IsTokenName (all_names colors dimensions) × Distinct (all_names colors dimensions))
    × (All (IsColorToken (color_names colors)) colors × All IsDimensionToken dimensions)

same_iff :
    (value : Option RgbValue) (alias : Option Text)
    → (same (not (is_some value)) (not (is_some alias)) ≡ false) ↔ OneOf value alias
same_iff none none = (λ h. cc (h), λ u. absurd u)
same_iff none (some b) = (λ h. tt, λ h. refl)
same_iff (some a) none = (λ h. tt, λ h. refl)
same_iff (some a) (some b) = (λ h. cc (h), λ u. absurd u)

InUnit-iff : (c : Channel) → ((below_zero c || above_one c) ≡ false) ↔ InUnit c
unfolding below_zero above_one
InUnit-iff none = (λ h. tt, λ h. refl)
InUnit-iff (some c) = ground arith

Fits-iff : (value : Option RgbValue) → (has_bad_channel value ≡ false) ↔ Fits value
Fits-iff none = (λ h. tt, λ h. refl)
Fits-iff (some c) = (
  λ h.
      let (r, gb) = or_false (below_zero c.r || above_one c.r) _ h in
      let (g, b) = or_false (below_zero c.g || above_one c.g) _ gb in
      ((InUnit-iff c.r).0 r, (InUnit-iff c.g).0 g, (InUnit-iff c.b).0 b),
  λ (r, g, b). rw ((InUnit-iff c.r).1 r, (InUnit-iff c.g).1 g, (InUnit-iff c.b).1 b) refl,
)

text_eq-found : (t : Text) (names : List Text) → (any (text_eq t) names ≡ true) ↔ Memᴰ t names
text_eq-found t names = any-true_iff t (text_eq t) names (text_eq_iff t)

HasTarget-iff :
    (names : List Text) (alias : Option Text)
    → (lacks_target names alias ≡ false) ↔ HasTarget names alias
HasTarget-iff names none = (λ h. tt, λ h. refl)
HasTarget-iff names (some []) = (λ h. tt, λ h. refl)
HasTarget-iff names (some (c ∷ target)) = (
  λ h. (text_eq-found (c ∷ target) names).0 (not-false (any (text_eq (c ∷ target)) names) h),
  λ m. rw ((text_eq-found (c ∷ target) names).1 m) refl,
)

is_empty_iff : (scopes : List Text) → (is_empty scopes ≡ false) ↔ (scopes ≢ [])
is_empty_iff [] = (λ h. absurd (false_ne h), λ h. absurd (h refl))
is_empty_iff (s ∷ scopes) = (λ h e. false_ne (cc (e)), λ h. refl)

slash_iff : (name : Text) → (any (◌==◌ b'/') name ≡ true) ↔ Memᴰ b'/' name
slash_iff name = any-true_iff b'/' (◌==◌ b'/') name (==_iff b'/')

name_errors_iff :
    (names : List Text) (name : Text)
    → (name_errors names name ≡ []) ↔ (IsTokenName name × (ltb 1 (occurrences name names) ≡ false))
unfolding name_errors IsTokenName
name_errors_iff names name =
    both_iff _ _
      (trans_iff (error_if_iff _ (text "invalid token name: " ++ name)) (
        λ h.
            let (slash, space) = or_false (not (any (◌==◌ b'/') name)) (any is_space name) h in
            ((slash_iff name).0 (not-false _ slash), (any-false_iff is_space name).0 space),
        λ (slash, space). rw ((slash_iff name).1 slash, (any-false_iff is_space name).1 space) refl,
      ))
      (error_if_iff _ (text "duplicate token: " ++ name))

color_errors_iff :
    (names : List Text) (token : ColorToken)
    → (color_errors names token ≡ []) ↔ IsColorToken names token
unfolding color_errors IsColorToken
color_errors_iff names token =
    both_iff _ _ (trans_iff (error_if_iff _ _) (same_iff token.value token.alias)) (
      both_iff _ _ (trans_iff (error_if_iff _ _) (Fits-iff token.value)) (
        both_iff _ _ (trans_iff (error_if_iff _ _) (HasTarget-iff names token.alias))
          (trans_iff (error_if_iff _ _) (is_empty_iff token.scopes))))

dimension_errors_iff :
    (token : DimensionToken) → (dimension_errors token ≡ []) ↔ IsDimensionToken token
unfolding dimension_errors IsDimensionToken
dimension_errors_iff token =
    both_iff _ _ (error_if_iff _ _) (trans_iff (error_if_iff _ _) (is_empty_iff token.scopes))

All-pair :
    {A : Type 0} (P Q : A → Type 0) (xs : List A)
    → All (λ (a : A). P a × Q a) xs ↔ (All P xs × All Q xs)
All-pair P Q [] = (λ u. (tt, tt), λ u. tt)
All-pair P Q (x ∷ xs) = (
  λ ((p, q), rest). let (ps, qs) = (All-pair P Q xs).0 rest in ((p, ps), (q, qs)),
  λ ((p, ps), (q, qs)). ((p, q), (All-pair P Q xs).1 (ps, qs)),
)

split_names :
    {R : Type 0} (names : List Text)
    → (All (λ (name : Text). IsTokenName name × (ltb 1 (occurrences name names) ≡ false)) names × R)
      ↔ ((All IsTokenName names × Distinct names) × R)
split_names names = (
  λ (h, r). let (valid, once) = (All-pair _ _ names).0 h in ((valid, (Once-iff names).0 once), r),
  λ ((valid, d), r). ((All-pair _ _ names).1 (valid, (Once-iff names).1 d), r),
)

-- The check of the tokens reports nothing exactly for well-formed tables.
pub validate-WellFormed :
    (colors : List ColorToken) (dimensions : List DimensionToken)
    → (validate colors dimensions ≡ []) ↔ WellFormed colors dimensions
unfolding validate WellFormed
validate-WellFormed colors dimensions =
    let names = all_names colors dimensions in
    trans_iff (distinct_iff _) (
      trans_iff
        (both_iff _ _
          (trans_iff (errors_of_iff (name_errors names) names)
            (All-iff _ _ names (name_errors_iff names)))
          (both_iff _ _
            (trans_iff (errors_of_iff (color_errors (color_names colors)) colors)
              (All-iff _ _ colors (color_errors_iff (color_names colors))))
            (trans_iff (errors_of_iff dimension_errors dimensions)
              (All-iff _ _ dimensions dimension_errors_iff))))
        (split_names names))

-- The tables of the design are well-formed.
pub validate_tokens-WellFormed : WellFormed color_tokens dimension_tokens
unfolding validate_tokens distinct color_tokens text is_space text_eq dimension_tokens print
    below_zero rgb above_one fill_scopes text_scope stroke_scope
validate_tokens-WellFormed = (validate-WellFormed color_tokens dimension_tokens).0 refl
