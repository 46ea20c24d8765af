-- ===== src/Figma/Adapter.antt =====
-- tools/figma-plugin/src/figma/adapter.ts: how the adapter finds, makes and fills the pages, the
-- variables and the styles. The calls of the API of Figma are a parameter; a creation gives the new id.
pub mod Variables
pub mod Styles
pub mod Port
pub mod Nodes
pub mod Rerun
pub mod Filled
pub mod OtherMarks
pub mod PageMarks
pub mod SecondRun
use smart_parcel_locker.Prelude.{
  ℕ, Text, text, text_eq, truthy, Bool, true, false, not, ◌&&◌, Option, none, some, is_some, List,
  [], ◌∷◌, ◌++◌, ◌or◌, Result, ok, err, ◌>>=◌, ◌≡◌, if◌then◌else◌,
}
use smart_parcel_locker.Prelude.Int.{pos}
use smart_parcel_locker.Figma.{
  Stage, stage_text, ResourceOutcome, created, updated, conflicted, failed, ResourceResult,
}
use smart_parcel_locker.Figma.Color.{RgbValue, normalize_color, to_variable_scopes}
use smart_parcel_locker.Figma.Requests.{Value, number, word, words, color, ResourceSpec}
use smart_parcel_locker.Figma.Stages.{Done, FontDescriptor}
use smart_parcel_locker.Figma.Document.{
  Document, Place, pages, collections, variables, text_styles, effect_styles, IsCreation, SameMarks,
  find, Obtained, held, taken, missing, mark, owned, find_owned, find_named, named_or_made, obtain,
}

-- What a variable is set to: a value, or another variable.
pub data VariableValue : Type 0 where
  plain : Value → VariableValue
  alias_of : Text → VariableValue

-- The numbers of a shadow, `undefined` as `none`; the API is given `Number(…)` of them.
pub record Shadow : Type 0 where
  pub opacity : Option Value
  pub x : Option Value
  pub y : Option Value
  pub blur : Option Value
  pub spread : Value

-- The calls of the API. None but the creations and `setSharedPluginData` changes what is listed or the
-- shared plugin data.
pub record Calls {S : Type 0} (d : Document S) : Type 0 where
  pub root : Text
  -- `String(…)` of a value that is no string
  pub string_of : Option Value → Text
  pub create_page : S → Text × S
  pub create_collection : Text → S → Text × S
  pub create_variable : Text → Text → Option Value → S → Text × S
  pub create_text_style : S → Text × S
  pub create_effect_style : S → Text × S
  pub collection_of : S → Text → Text
  pub default_mode : S → Text → Option Text
  pub load_font : FontDescriptor → S → Result Done
  pub set_scopes : Text → List Text → S → S
  pub set_value : Text → Text → VariableValue → S → S
  pub set_code_syntax : Text → Text → S → S
  pub set_font : Text → FontDescriptor → Option Value → Option Value → S → S
  pub set_shadow : Text → Shadow → S → S
  pub new_page : (s : S) → IsCreation d pages s (create_page s).0 (create_page s).1
  pub new_collection :
      (name : Text) (s : S)
      → IsCreation d collections s (create_collection name s).0 (create_collection name s).1
  pub new_variable :
      (name collection : Text) (type : Option Value) (s : S)
      → IsCreation d variables s
          (create_variable name collection type s).0
          (create_variable name collection type s).1
  pub new_text_style :
      (s : S) → IsCreation d text_styles s (create_text_style s).0 (create_text_style s).1
  pub new_effect_style :
      (s : S) → IsCreation d effect_styles s (create_effect_style s).0 (create_effect_style s).1
  pub scopes_marks :
      (id : Text) (scopes : List Text) (s : S) → SameMarks d s (set_scopes id scopes s)
  pub value_marks :
      (id mode : Text) (value : VariableValue) (s : S) → SameMarks d s (set_value id mode value s)
  pub syntax_marks : (id syntax : Text) (s : S) → SameMarks d s (set_code_syntax id syntax s)
  pub font_marks :
      (id : Text) (font : FontDescriptor) (size line_height : Option Value) (s : S)
      → SameMarks d s (set_font id font size line_height s)
  pub shadow_marks : (id : Text) (shadow : Shadow) (s : S) → SameMarks d s (set_shadow id shadow s)

-- `spec[name]`
unfoldable pub property : Text → List (Text × Value) → Option Value
property name [] = none
property name ((other, value) ∷ rest) =
    let later = property name rest in if text_eq name other then some value else later

-- `result`
unfoldable pub result : Text → ResourceOutcome → Option Text → Option Text → ResourceResult
result key outcome id message = record {
  key = key;
  outcome = outcome;
  node_id = id;
  message = message;
}

-- What an upsert leaves and answers.
abbrev pub Answer : Type 0 → Type 0
Answer S = S × Result ResourceResult

module _ {S : Type 0} (d : Document S) (c : Calls d) where
  -- `String(value)`
  abbrev pub string : Option Value → Text
  string (some (word t)) = t
  string value = c.string_of value

  -- A held resource is filled; a taken name is a conflict.
  abbrev pub settle :
      S
      → Obtained S
      → (Text → ResourceResult)
      → ResourceResult
      → (ResourceOutcome → Text → S → Answer S)
      → Answer S
  settle s (held outcome id next) on_conflict lacking fill = fill outcome id next
  settle s (taken id) on_conflict lacking fill = (s, ok (on_conflict id))
  settle s missing on_conflict lacking fill = (s, ok lacking)

  conflict_with : Text → ResourceSpec → Text → ResourceResult
  unfolding result
  conflict_with message spec id = result spec.key conflicted (some id) (some (message ++ spec.name))

  silent_conflict : ResourceSpec → Text → ResourceResult
  unfolding result
  silent_conflict spec id = result spec.key conflicted (some id) none

  -- The name is set, and the resource is the answer.
  pub named : ResourceSpec → ResourceOutcome → Text → S → Answer S
  unfolding result
  named spec outcome id s = (d.set_name id spec.name s, ok (result spec.key outcome (some id) none))

  pub as_is : ResourceSpec → ResourceOutcome → Text → S → Answer S
  unfolding result
  as_is spec outcome id s = (s, ok (result spec.key outcome (some id) none))

  -- The one page of a new file.
  only_page : S → List Text → Option Text
  only_page s (id ∷ []) = if text_eq (d.name s id) (text "Page 1") then some id else none
  only_page s _ = none

  initial_page : Text → S → Option Text
  unfolding only_page
  initial_page key s =
      let page = only_page s (d.ids s pages) in
      if text_eq key (text "page/design-system") then page else none

  made_page : ResourceSpec → S → Option (Text × S)
  made_page spec s = let (id, next) = c.create_page s in some (id, d.set_name id spec.name next)

  upsert_page_by : ResourceSpec → S → Option Text → Option Text → Answer S
  unfolding named result made_page conflict_with as_is
  upsert_page_by spec s (some id) initial = named spec updated id s
  upsert_page_by spec s none (some id) = (
    mark d spec.key id (d.set_name id spec.name s),
    ok (result spec.key updated (some id) (some (text "Reused the initial free-plan page"))),
  )
  upsert_page_by spec s none none =
      settle s (named_or_made d (made_page spec) spec.key s (find_named d pages spec.name s))
        (conflict_with (text "Unowned page already exists: ") spec)
        (result spec.key failed none none) (as_is spec)

  -- `upsertPage`
  unfoldable pub upsert_page : ResourceSpec → S → Answer S
  unfolding upsert_page_by initial_page
  upsert_page spec s =
      upsert_page_by spec s (find_owned d pages spec.key s) (initial_page spec.key s)

  -- `upsertVariableCollection`; a new collection is created with its name.
  unfoldable pub upsert_variable_collection : ResourceSpec → S → Answer S
  unfolding named conflict_with result
  upsert_variable_collection spec s =
      settle s
        (obtain d (λ file. some (c.create_collection spec.name file)) collections spec.key spec.name
          s)
        (conflict_with (text "Unowned variable collection exists: ") spec)
        (result spec.key failed none none) (named spec)

  -- `hasStageMarker`
  unfoldable pub has_stage_marker : Stage → S → Bool
  has_stage_marker stage s =
      text_eq (d.shared s c.root (text "stage/" ++ stage_text stage)) (text "complete")

  -- `setStageMarker`
  unfoldable pub set_stage_marker : Stage → S → S
  set_stage_marker stage s =
      d.set_shared c.root (text "stage/" ++ stage_text stage) (text "complete") s
