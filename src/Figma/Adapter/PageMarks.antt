-- ===== src/Figma/Adapter/PageMarks.antt =====
-- What the upsert of a page leaves.
use smart_parcel_locker.Prelude.{
  Text, text, text_eq, true, false, Bool-cases, Option, none, some, List, [], ◌∷◌, ok, ◌≡◌, refl,
  sym, ◌∙◌, inl, inr,
}
use smart_parcel_locker.Figma.{updated, ResourceResult}
use smart_parcel_locker.Figma.Report.{is_failure}
use smart_parcel_locker.Figma.Requests.{ResourceSpec}
use smart_parcel_locker.Figma.Document.{
  Document, Place, pages, IsCreation, SameMarks, owned, mark, find_owned, find_named, named_or_made,
  obtain,
}
use smart_parcel_locker.Figma.Document.Again.{owned-mark, ids-mark, find_owned-SameMarks}
use smart_parcel_locker.Figma.Adapter.{
  Calls, result, named, as_is, made_page, only_page, initial_page, upsert_page_by, upsert_page,
}
use smart_parcel_locker.Figma.Adapter.Rerun.{
  Found, Fills, Creates, IsOld, SameMarks-refl, settle-Found, some_pair, not_created,
}
use smart_parcel_locker.Figma.Adapter.Filled.{named-Fills}

module _ {S : Type 0} (d : Document S) (c : Calls d) where
  renamed-IsCreation :
      (place : Place) (s : S) (id : Text) (next : S) (name : Text)
      → IsCreation d place s id next
      → IsCreation d place s id (d.set_name id name next)
  renamed-IsCreation place s id next name new = record {
    listed = d.ids-set_name id name next place ∙ new.listed;
    grown = λ other. rw (d.ids-set_name id name next other) (new.grown other);
    fresh = new.fresh;
    same_shared =
        λ old field ne. d.shared-set_name id name old field next ∙ new.same_shared old field ne;
  }

  page-Creates : (spec : ResourceSpec) → Creates d (made_page d c spec) pages
  unfolding Creates made_page
  page-Creates spec s id next e =
      let (e_id, e_next) =
        some_pair d
          ((c.create_page s).0, d.set_name (c.create_page s).0 spec.name (c.create_page s).1) id
          next e in
      rw (sym e_id, sym e_next)
        (renamed-IsCreation pages s (c.create_page s).0 (c.create_page s).1 spec.name
          (c.new_page s))

  as_is-Fills : (spec : ResourceSpec) → Fills d (as_is d c spec)
  unfolding Fills as_is result
  as_is-Fills spec outcome id s = (SameMarks-refl d s, inl refl)

  first_owned :
      (key id : Text) (s : S)
      → d.ids s pages ≡ id ∷ []
      → owned d s key id ≡ true
      → find_owned d pages key s ≡ some id
  unfolding find_owned
  first_owned key id s listed own = rw (listed, own) refl

  initial_case :
      (spec : ResourceSpec) (s : S) (id : Text)
      → initial_page d c spec.key s ≡ some id
      → only_page d c s (d.ids s pages) ≡ some id
  unfolding initial_page
  initial_case spec s id h = elim (Bool-cases (text_eq spec.key (text "page/design-system"))) [
    | inl t ↦ (rw t at h)
    | inr f ↦ cc (rw f at h)
  ]

  obtain-absent :
      (spec : ResourceSpec) (s : S)
      → find_owned d pages spec.key s ≡ none
      → obtain d (made_page d c spec) pages spec.key spec.name s
        ≡ named_or_made d (made_page d c spec) spec.key s (find_named d pages spec.name s)
  unfolding obtain
  obtain-absent spec s absent = rw absent refl

  initial-Found :
      (spec : ResourceSpec) (s : S) (id : Text) (ids : List Text)
      → d.ids s pages ≡ ids
      → only_page d c s ids ≡ some id
      → Found d pages spec.key (mark d spec.key id (d.set_name id spec.name s))
  unfolding only_page Found
  initial-Found spec s id [] e h = cc (h)
  initial-Found spec s id (page ∷ []) e h =
      elim (Bool-cases (text_eq (d.name s page) (text "Page 1"))) [
        | inl t ↦
            let same : page ≡ id = cc (rw t at h) in
            (
              id,
              first_owned spec.key id (mark d spec.key id (d.set_name id spec.name s))
                  (ids-mark d spec.key id _ pages
                    ∙ d.ids-set_name id spec.name s pages
                    ∙ (rw same at e))
                  (owned-mark d spec.key id _),
            )
        | inr f ↦ cc (rw f at h)
      ]
  initial-Found spec s id (page ∷ other ∷ rest) e h = cc (h)

  Found-by :
      (spec : ResourceSpec) (s : S) (found initial : Option Text) (r : ResourceResult)
      → find_owned d pages spec.key s ≡ found
      → initial_page d c spec.key s ≡ initial
      → (upsert_page_by d c spec s found initial).1 ≡ ok r
      → is_failure r ≡ false
      → Found d pages spec.key (upsert_page_by d c spec s found initial).0
  unfolding upsert_page_by Found Fills
  Found-by spec s (some id) initial r found h e good =
      (id, find_owned-SameMarks d pages spec.key s _ (named-Fills d c spec updated id s).0 ∙ found)
  Found-by spec s none (some id) r absent h e good =
      initial-Found spec s id (d.ids s pages) refl (initial_case spec s id h)
  Found-by spec s none none r absent h e good = rw (sym (obtain-absent spec s absent)) (
      settle-Found d c (made_page d c spec) pages spec.key spec.name _ _ (as_is d c spec)
        (page-Creates spec) (as_is-Fills spec) s r (λ id. refl) refl
        (rw (sym (obtain-absent spec s absent)) at e) good)

  -- The key of a page finds it again, unless the answer is a failure.
  pub upsert_page-Found :
      (spec : ResourceSpec) (s : S) (r : ResourceResult)
      → (upsert_page d c spec s).1 ≡ ok r
      → is_failure r ≡ false
      → Found d pages spec.key (upsert_page d c spec s).0
  unfolding upsert_page
  upsert_page-Found spec s r =
      Found-by spec s (find_owned d pages spec.key s) (initial_page d c spec.key s) r refl refl

  -- Where the key finds a page, it is renamed at most.
  pub upsert_page-Old :
      (spec : ResourceSpec) (s : S)
      → Found d pages spec.key s
      → SameMarks d s (upsert_page d c spec s).0 × IsOld d (upsert_page d c spec s)
  unfolding upsert_page upsert_page_by Found Fills IsOld
  upsert_page-Old spec s (id, found) = rw found (
    (named-Fills d c spec updated id s).0,
    not_created (named d c spec updated id s).1 (named-Fills d c spec updated id s).1,
  )
