-- ===== src/Figma/Document/Kept.antt =====
-- What an own resource keeps while another is obtained.
use smart_parcel_locker.Prelude.{
  Text, text, Option, none, some, [], ◌∷◌, ◌++◌, ◌≡◌, refl, sym, ◌∙◌, Memᴰ, ◌⊎◌, inl, inr,
  Option-cases,
}
use smart_parcel_locker.Figma.{ResourceOutcome}
use smart_parcel_locker.Figma.Document.{
  Document, Place, IsCreation, held, owned, mark, find_owned, find_named, marked, obtain,
}
use smart_parcel_locker.Figma.Document.Again.{find_congr, find-append, mark_other, ids-mark}

module _ {S : Type 0} (d : Document S) where
  -- Every resource that a key of the plugin finds is found by it later, too.
  unfoldable pub Keeps : S → S → Type 0
  Keeps s next =
      (place : Place) (key id : Text)
      → find_owned d place key s ≡ some id
      → find_owned d place key next ≡ some id

  pub Keeps-refl : (s : S) → Keeps s s
  unfolding Keeps
  Keeps-refl s place key id h = h

  pub Keeps-trans : (s next last : S) → Keeps s next → Keeps next last → Keeps s last
  unfolding Keeps
  Keeps-trans s next last first second place key id h = second place key id (first place key id h)

  grown_by :
      (place : Place) (key id new : Text) (s : S) (next : S)
      → (d.ids next place ≡ d.ids s place) ⊎ (d.ids next place ≡ d.ids s place ++ new ∷ [])
      → ((old : Text) → Memᴰ old (d.ids s place) → owned d next key old ≡ owned d s key old)
      → find_owned d place key s ≡ some id
      → find_owned d place key next ≡ some id
  unfolding find_owned
  grown_by place key id new s next (inl same) alike h =
      rw same (find_congr (owned d next key) (owned d s key) (d.ids s place) alike ∙ h)
  grown_by place key id new s next (inr grown) alike h = rw grown (
      find-append (owned d next key) (d.ids s place) (new ∷ []) id
        (find_congr (owned d next key) (owned d s key) (d.ids s place) alike ∙ h))

  -- A new resource that has been marked hides no other.
  made-Keeps :
      (place : Place) (key id : Text) (s next : S)
      → IsCreation d place s id next
      → Keeps s (mark d key id next)
  unfolding Keeps owned
  made-Keeps place key id s next new other other_key other_id h =
      grown_by other other_key other_id id s (mark d key id next)
        (rw (ids-mark d key id next other) (new.grown other))
        (λ old m.
          rw
            (
              mark_other d key id old (text "owner") next (new.fresh other old m),
              mark_other d key id old (text "key") next (new.fresh other old m),
              new.same_shared old (text "owner") (new.fresh other old m),
              new.same_shared old (text "key") (new.fresh other old m),
            )
            refl)
        h

  marked-Keeps :
      (made : Option (Text × S)) (place : Place) (key : Text) (s next : S)
      (outcome : ResourceOutcome) (id : Text)
      → ((id : Text) (next : S) → made ≡ some (id, next) → IsCreation d place s id next)
      → marked d key made ≡ held outcome id next
      → Keeps s next
  marked-Keeps none place key s next outcome id creates h = cc (h)
  marked-Keeps (some (made, after)) place key s next outcome id creates h =
      let e_next : mark d key made after ≡ next = cc (h) in
      rw (sym e_next) (made-Keeps place key made s after (creates made after refl))

  pub obtain-Keeps :
      (create : S → Option (Text × S)) (place : Place) (key name : Text) (s next : S)
      (outcome : ResourceOutcome) (id : Text)
      → ((id : Text) (next : S) → create s ≡ some (id, next) → IsCreation d place s id next)
      → obtain d create place key name s ≡ held outcome id next
      → Keeps s next
  unfolding obtain
  obtain-Keeps create place key name s next outcome id creates h =
      elim (Option-cases (find_owned d place key s)) [
        | inr (other, found) ↦
            let e_next : s ≡ next = cc (rw found at h) in rw (sym e_next) (Keeps-refl s)
        | inl absent ↦ elim (Option-cases (find_named d place name s)) [
          | inr (other, same) ↦ cc (rw (absent, same) at h)
          | inl free ↦
              marked-Keeps (create s) place key s next outcome id creates (rw (absent, free) at h)
        ]
      ]
