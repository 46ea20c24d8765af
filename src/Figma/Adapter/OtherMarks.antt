-- ===== src/Figma/Adapter/OtherMarks.antt =====
-- What the upserts of collections, variables and styles leave.
use smart_parcel_locker.Prelude.{Text, Option, none, some, ◌≡◌, ◌≢◌, refl, sym}
use smart_parcel_locker.Figma.Requests.{ResourceSpec}
use smart_parcel_locker.Figma.Document.{
  Document, Place, pages, collections, variables, text_styles, effect_styles, IsCreation,
  find_owned,
}
use smart_parcel_locker.Figma.Adapter.{Calls, named, upsert_variable_collection}
use smart_parcel_locker.Figma.Adapter.Variables.{
  upsert_variable, made_variable, make_variable, fill_variable,
}
use smart_parcel_locker.Figma.Adapter.Styles.{
  upsert_text_style, fill_text_style, upsert_effect_style, fill_effect_style,
}
use smart_parcel_locker.Figma.Adapter.Rerun.{Creates, Upserts, some_pair, settle-Upserts}
use smart_parcel_locker.Figma.Adapter.Filled.{
  named-Fills, fill_variable-Fills, fill_text_style-Fills, fill_effect_style-Fills,
}
use smart_parcel_locker.Figma.Adapter.Port.{upsert_in}

module _ {S : Type 0} (d : Document S) (c : Calls d) where
  -- A creation of the API, as the upserts call it.
  creation-Creates :
      (place : Place) (create : S → Text × S)
      → ((s : S) → IsCreation d place s (create s).0 (create s).1)
      → Creates d (λ file. some (create file)) place
  unfolding Creates
  creation-Creates place create new s id next e =
      let (e_id, e_next) = some_pair d (create s) id next e in rw (sym e_id, sym e_next) (new s)

  variable-Creates : (spec : ResourceSpec) → Creates d (make_variable d c spec) variables
  unfolding Creates make_variable made_variable
  variable-Creates spec s id next e = made (find_owned d collections _ s) e
    where
      made :
          (collection : Option Text)
          → made_variable d c spec s collection ≡ some (id, next)
          → IsCreation d variables s id next
      made none h = cc (h)
      made (some collection) h =
          let (e_id, e_next) = some_pair d (c.create_variable spec.name collection _ s) id next h in
          rw (sym e_id, sym e_next) (c.new_variable spec.name collection _ s)

  upsert_variable_collection-Upserts :
      (spec : ResourceSpec) (s : S)
      → Upserts d collections spec s (upsert_variable_collection d c spec s)
  unfolding upsert_variable_collection
  upsert_variable_collection-Upserts spec s =
      settle-Upserts d c (λ file. some (c.create_collection spec.name file)) collections spec.key
        spec.name _ _ (named d c spec)
        (creation-Creates collections (c.create_collection spec.name) (c.new_collection spec.name))
        (named-Fills d c spec) s spec refl (λ id. refl) refl

  upsert_variable-Upserts :
      (spec : ResourceSpec) (s : S) → Upserts d variables spec s (upsert_variable d c spec s)
  unfolding upsert_variable
  upsert_variable-Upserts spec s =
      settle-Upserts d c (make_variable d c spec) variables spec.key spec.name _ _
        (fill_variable d c spec (d.ids s variables)) (variable-Creates spec)
        (fill_variable-Fills d c spec (d.ids s variables)) s spec refl (λ id. refl) refl

  upsert_text_style-Upserts :
      (spec : ResourceSpec) (s : S) → Upserts d text_styles spec s (upsert_text_style d c spec s)
  unfolding upsert_text_style
  upsert_text_style-Upserts spec s =
      settle-Upserts d c (λ file. some (c.create_text_style file)) text_styles spec.key spec.name _
        _ (fill_text_style d c spec)
        (creation-Creates text_styles (c.create_text_style) (c.new_text_style))
        (fill_text_style-Fills d c spec) s spec refl (λ id. refl) refl

  upsert_effect_style-Upserts :
      (spec : ResourceSpec) (s : S)
      → Upserts d effect_styles spec s (upsert_effect_style d c spec s)
  unfolding upsert_effect_style
  upsert_effect_style-Upserts spec s =
      settle-Upserts d c (λ file. some (c.create_effect_style file)) effect_styles spec.key
        spec.name _ _ (fill_effect_style d c spec)
        (creation-Creates effect_styles (c.create_effect_style) (c.new_effect_style))
        (fill_effect_style-Fills d c spec) s spec refl (λ id. refl) refl

  -- The upserts of all places but the pages.
  pub upsert_in-Upserts :
      (place : Place) (spec : ResourceSpec) (s : S)
      → place ≢ pages
      → Upserts d place spec s (upsert_in d c place spec s)
  unfolding upsert_in
  upsert_in-Upserts pages spec s other = absurd (other refl)
  upsert_in-Upserts collections spec s other = upsert_variable_collection-Upserts spec s
  upsert_in-Upserts variables spec s other = upsert_variable-Upserts spec s
  upsert_in-Upserts text_styles spec s other = upsert_text_style-Upserts spec s
  upsert_in-Upserts effect_styles spec s other = upsert_effect_style-Upserts spec s
