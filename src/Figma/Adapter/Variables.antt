-- ===== src/Figma/Adapter/Variables.antt =====
-- tools/figma-plugin/src/figma/adapter.ts: the variables.
use smart_parcel_locker.Prelude.{
  Text, text, text_eq, Bool, true, false, Option, none, some, List, [], ◌∷◌, ◌++◌, ok,
}
use smart_parcel_locker.Figma.{ResourceOutcome, failed}
use smart_parcel_locker.Figma.Color.{normalize_color, to_variable_scopes}
use smart_parcel_locker.Figma.Requests.{Value, word, words, color, ResourceSpec}
use smart_parcel_locker.Figma.Document.{Document, collections, variables, find, find_owned, obtain}
use smart_parcel_locker.Figma.Adapter.{
  Calls, Answer, VariableValue, plain, alias_of, property, result, string, settle, conflict_with,
  as_is,
}

abbrev pub list_of : Option Value → List Text
list_of (some (words ts)) = ts
list_of _ = []

abbrev pub is_color : Option Value → Bool
is_color (some (word t)) = text_eq t (text "COLOR")
is_color _ = false

-- The value of a variable, a colour normalised; the one of an alias is not read.
abbrev pub normalized : Bool → Option Value → Option Value
normalized true (some (color c)) = some (color (normalize_color c))
normalized _ value = value

-- `if (spec.alias)`, for an alias that is text
abbrev pub alias_name : Option Value → Option Text
alias_name (some (word [])) = none
alias_name (some (word (c ∷ t))) = some (c ∷ t)
alias_name _ = none

abbrev pub truthy_word : Option Value → Option Text
truthy_word (some (word [])) = none
truthy_word (some (word (c ∷ t))) = some (c ∷ t)
truthy_word _ = none

module _ {S : Type 0} (d : Document S) (c : Calls d) where
  -- A variable needs its collection.
  unfoldable pub made_variable : ResourceSpec → S → Option Text → Option (Text × S)
  made_variable spec s none = none
  made_variable spec s (some collection) =
      some (c.create_variable spec.name collection (property (text "type") spec.properties) s)

  unfoldable pub make_variable : ResourceSpec → S → Option (Text × S)
  unfolding made_variable property
  make_variable spec s =
      made_variable spec s
        (find_owned d collections (string d c (property (text "collectionKey") spec.properties)) s)

  abbrev pub with_syntax : ResourceSpec → Text → Option Text → S → S
  with_syntax spec id none s = s
  with_syntax spec id (some syntax) s = c.set_code_syntax id syntax s

  abbrev pub with_value : Text → Text → Option VariableValue → S → S
  with_value id mode none s = s
  with_value id mode (some value) s = c.set_value id mode value s

  -- The value, and the syntax of the code.
  unfoldable pub valued_variable :
      ResourceSpec → ResourceOutcome → Text → Text → Option VariableValue → S → Answer S
  unfolding as_is property
  valued_variable spec outcome id mode value s = as_is d c spec outcome id (
      with_syntax spec id (truthy_word (property (text "codeSyntax") spec.properties))
        (with_value id mode value s))

  abbrev as_plain : Option Value → Option VariableValue
  as_plain none = none
  as_plain (some value) = some (plain value)

  unfoldable pub aliased :
      ResourceSpec → ResourceOutcome → Text → Text → Text → Option Text → S → Answer S
  unfolding valued_variable result
  aliased spec outcome id mode alias (some target) s =
      valued_variable spec outcome id mode (some (alias_of target)) s
  aliased spec outcome id mode alias none s =
      (s, ok (result spec.key failed (some id) (some (text "Missing alias target: " ++ alias))))

  -- An alias is looked for by its name among the variables that were listed at the start.
  unfoldable pub alias_step :
      ResourceSpec
      → ResourceOutcome
      → Text
      → Text
      → List Text
      → Option VariableValue
      → Option Text
      → S
      → Answer S
  unfolding aliased valued_variable
  alias_step spec outcome id mode listed value none s = valued_variable spec outcome id mode value s
  alias_step spec outcome id mode listed value (some alias) s =
      aliased spec outcome id mode alias (find (λ other. text_eq (d.name s other) alias) listed) s

  unfoldable pub in_mode :
      ResourceSpec → ResourceOutcome → Text → List Text → Option Text → S → Answer S
  unfolding alias_step result property
  in_mode spec outcome id listed none s =
      (s, ok (result spec.key failed (some id) (some (text "Variable collection unavailable"))))
  in_mode spec outcome id listed (some mode) s =
      alias_step spec outcome id mode listed
        (as_plain (
          normalized (is_color (property (text "type") spec.properties))
            (property (text "value") spec.properties)))
        (alias_name (property (text "alias") spec.properties)) s

  unfoldable pub fill_variable : ResourceSpec → List Text → ResourceOutcome → Text → S → Answer S
  unfolding in_mode property
  fill_variable spec listed outcome id s =
      let next =
        c.set_scopes id (to_variable_scopes (list_of (property (text "scopes") spec.properties)))
          (d.set_name id spec.name s) in
      in_mode spec outcome id listed (c.default_mode next (c.collection_of next id)) next

  -- `upsertVariable`
  unfoldable pub upsert_variable : ResourceSpec → S → Answer S
  unfolding fill_variable make_variable conflict_with result property
  upsert_variable spec s =
      settle d c s (obtain d (make_variable spec) variables spec.key spec.name s)
        (conflict_with d c (text "Unowned variable exists: ") spec)
        (result spec.key failed none (
          some (
            text "Missing collection: "
            ++ string d c (property (text "collectionKey") spec.properties))))
        (fill_variable spec (d.ids s variables))
