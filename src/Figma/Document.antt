-- ===== src/Figma/Document.antt =====
-- tools/figma-plugin/src/figma/adapter.ts: the resources of a file, which the API of Figma keeps. The
-- API is a parameter: what the adapter calls of it, with what its documentation says of the calls.
pub mod Again
pub mod Kept
use smart_parcel_locker.Prelude.{
  Text, text, text_eq, Bool, true, false, ◌&&◌, Option, none, some, List, [], ◌∷◌, ◌++◌, ◌≡◌, ◌≢◌,
  Memᴰ, ◌⊎◌, if◌then◌else◌,
}
use smart_parcel_locker.Figma.{plugin_owner, ResourceOutcome, created, updated}

-- Where the API lists resources.
pub data Place : Type 0 where
  pages collections variables text_styles effect_styles : Place

-- The resources of a file: the ids of a place in the order in which the API lists them, and by the id
-- the name and the shared plugin data in the namespace of the plugin.
pub record Document (S : Type 0) : Type 0 where
  pub ids : S → Place → List Text
  pub name : S → Text → Text
  pub shared : S → Text → Text → Text
  pub set_name : Text → Text → S → S
  pub set_shared : Text → Text → Text → S → S
  pub shared-set_name :
      (id t other field : Text) (s : S)
      → shared (set_name id t s) other field ≡ shared s other field
  pub ids-set_name :
      (id t : Text) (s : S) (place : Place) → ids (set_name id t s) place ≡ ids s place
  pub shared-set_shared :
      (id field value : Text) (s : S) → shared (set_shared id field value s) id field ≡ value
  pub shared-set_shared_ne :
      (id field value other other_field : Text) (s : S)
      → (id ≢ other) ⊎ (field ≢ other_field)
      → shared (set_shared id field value s) other other_field ≡ shared s other other_field
  pub ids-set_shared :
      (id field value : Text) (s : S) (place : Place)
      → ids (set_shared id field value s) place ≡ ids s place

-- A new resource comes last in its place, under an id that no other has, and changes no other.
pub record IsCreation {S : Type 0} (d : Document S) (place : Place) (s : S) (id : Text) (next : S)
    : Type 0 where
  pub listed : d.ids next place ≡ d.ids s place ++ id ∷ []
  pub grown :
      (other : Place)
      → (d.ids next other ≡ d.ids s other) ⊎ (d.ids next other ≡ d.ids s other ++ id ∷ [])
  pub fresh : (other : Place) (old : Text) → Memᴰ old (d.ids s other) → id ≢ old
  pub same_shared : (old field : Text) → id ≢ old → d.shared next old field ≡ d.shared s old field

-- Two states of a file list the same resources with the same shared plugin data.
pub record SameMarks {S : Type 0} (d : Document S) (s next : S) : Type 0 where
  pub same_ids : (place : Place) → d.ids next place ≡ d.ids s place
  pub same_data : (id field : Text) → d.shared next id field ≡ d.shared s id field

-- `list.find(test)`
abbrev pub find : (Text → Bool) → List Text → Option Text
find test [] = none
find test (id ∷ rest) = if test id then some id else find test rest

-- What the lookup of a resource has found: it is held, its name is taken, or it cannot be made.
pub data Obtained (S : Type 0) : Type 0 where
  held : ResourceOutcome → Text → S → Obtained S
  taken : Text → Obtained S
  missing : Obtained S

module _ {S : Type 0} (d : Document S) where
  -- `owned`
  unfoldable pub owned : S → Text → Text → Bool
  owned s key id =
      text_eq (d.shared s id (text "owner")) plugin_owner
      && text_eq (d.shared s id (text "key")) key

  -- `mark`
  unfoldable pub mark : Text → Text → S → S
  mark key id s =
      d.set_shared id (text "schema_version") (text "1")
        (d.set_shared id (text "key") key (d.set_shared id (text "owner") plugin_owner s))

  unfoldable pub find_owned : Place → Text → S → Option Text
  unfolding owned
  find_owned place key s = find (owned s key) (d.ids s place)

  unfoldable pub find_named : Place → Text → S → Option Text
  find_named place name s = find (λ id. text_eq (d.name s id) name) (d.ids s place)

  abbrev pub marked : Text → Option (Text × S) → Obtained S
  marked key none = missing
  marked key (some (id, next)) = held created id (mark key id next)

  abbrev pub named_or_made : (S → Option (Text × S)) → Text → S → Option Text → Obtained S
  named_or_made create key s (some other) = taken other
  named_or_made create key s none = marked key (create s)

  abbrev owned_or_made :
      (S → Option (Text × S)) → Place → Text → Text → S → Option Text → Obtained S
  owned_or_made create place key name s (some id) = held updated id s
  owned_or_made create place key name s none = named_or_made create key s (find_named place name s)

  -- The resource with the key; where there is none, a new one, if its name is free.
  unfoldable pub obtain : (S → Option (Text × S)) → Place → Text → Text → S → Obtained S
  obtain create place key name s = owned_or_made create place key name s (find_owned place key s)
