-- ===== src/Figma/Document/Again.antt =====
-- What the lookup of a resource leaves in the file, and what a later lookup finds.
use smart_parcel_locker.Prelude.{
  Option-cases, text_eq-ne, Text, text, text_eq, text_eq_iff, Bool, true, false, Option, none, some,
  List, [], ◌∷◌, ◌++◌, ◌≡◌, refl, sym, ◌∙◌, ◌≢◌, Memᴰ, inl, inr, Bool-cases,
}
use smart_parcel_locker.Figma.{plugin_owner, ResourceOutcome}
use smart_parcel_locker.Figma.Document.{
  Document, Place, SameMarks, IsCreation, find, held, owned, mark, find_owned, find_named, marked,
  obtain,
}

pub find-some :
    (test : Text → Bool) (ids : List Text) (id : Text)
    → find test ids ≡ some id
    → (test id ≡ true) × Memᴰ id ids
find-some test [] id h = cc (h)
find-some test (other ∷ rest) id h = elim (Bool-cases (test other)) [
  | inl t ↦ let e : other ≡ id = cc (rw t at h) in (rw (sym e) t, Memᴰ.head (sym e))
  | inr f ↦ let (t, m) = find-some test rest id (rw f at h) in (t, Memᴰ.tail m)
]

none_here :
    (test : Text → Bool) (other : Text) (rest : List Text) (id : Text)
    → test other ≡ false
    → (Memᴰ id rest → test id ≡ false)
    → Memᴰ id (other ∷ rest)
    → test id ≡ false
none_here test other rest id f later (Memᴰ.head e) = rw e f
none_here test other rest id f later (Memᴰ.tail m) = later m

pub find-none :
    (test : Text → Bool) (ids : List Text) (id : Text)
    → find test ids ≡ none
    → Memᴰ id ids
    → test id ≡ false
find-none test [] id h m = elim m [ ]
find-none test (other ∷ rest) id h m = elim (Bool-cases (test other)) [
  | inl t ↦ cc (rw t at h)
  | inr f ↦ none_here test other rest id f (find-none test rest id (rw f at h)) m
]

-- A test that no element passes but the last finds the last.
pub find-last :
    (test : Text → Bool) (ids : List Text) (last : Text)
    → ((id : Text) → Memᴰ id ids → test id ≡ false)
    → test last ≡ true
    → find test (ids ++ last ∷ []) ≡ some last
find-last test [] last others h = rw h refl
find-last test (id ∷ rest) last others h =
    rw (others id (Memᴰ.head refl))
      (find-last test rest last (λ other m. others other (Memᴰ.tail m)) h)

pub find_congr :
    (test other_test : Text → Bool) (ids : List Text)
    → ((id : Text) → Memᴰ id ids → test id ≡ other_test id)
    → find test ids ≡ find other_test ids
find_congr test other_test [] same = refl
find_congr test other_test (id ∷ rest) same =
    rw
      (
        same id (Memᴰ.head refl),
        find_congr test other_test rest (λ other m. same other (Memᴰ.tail m)),
      )
      refl

pub find-append :
    (test : Text → Bool) (ids more : List Text) (id : Text)
    → find test ids ≡ some id
    → find test (ids ++ more) ≡ some id
find-append test [] more id h = cc (h)
find-append test (other ∷ rest) more id h = elim (Bool-cases (test other)) [
  | inl t ↦ rw t (rw t at h)
  | inr f ↦ rw f (find-append test rest more id (rw f at h))
]

module _ {S : Type 0} (d : Document S) where
  pub owned-mark : (key id : Text) (s : S) → owned d (mark d key id s) key id ≡ true
  unfolding owned mark text_eq text
  owned-mark key id s =
      let s1 = d.set_shared id (text "owner") plugin_owner s in
      let s2 = d.set_shared id (text "key") key s1 in
      let owner : d.shared (d.set_shared id (text "schema_version") (text "1") s2) id (text "owner")
          ≡ plugin_owner =
        d.shared-set_shared_ne id (text "schema_version") (text "1") id (text "owner") s2
          (inr (text_eq-ne (text "schema_version") (text "owner") refl))
        ∙ d.shared-set_shared_ne id (text "key") key id (text "owner") s1
            (inr (text_eq-ne (text "key") (text "owner") refl))
        ∙ d.shared-set_shared id (text "owner") plugin_owner s in
      let own : d.shared (d.set_shared id (text "schema_version") (text "1") s2) id (text "key")
          ≡ key =
        d.shared-set_shared_ne id (text "schema_version") (text "1") id (text "key") s2
          (inr (text_eq-ne (text "schema_version") (text "key") refl))
        ∙ d.shared-set_shared id (text "key") key s1 in
      rw (owner, own, (text_eq_iff plugin_owner plugin_owner).1 refl, (text_eq_iff key key).1 refl)
        refl

  -- A resource that is not the marked one has the data that it had.
  pub mark_other :
      (key id other field : Text) (s : S)
      → id ≢ other
      → d.shared (mark d key id s) other field ≡ d.shared s other field
  unfolding mark
  mark_other key id other field s other_id =
      d.shared-set_shared_ne id (text "schema_version") (text "1") other field
        (d.set_shared id (text "key") key (d.set_shared id (text "owner") plugin_owner s))
        (inl other_id)
      ∙ d.shared-set_shared_ne id (text "key") key other field
          (d.set_shared id (text "owner") plugin_owner s) (inl other_id)
      ∙ d.shared-set_shared_ne id (text "owner") plugin_owner other field s (inl other_id)

  pub ids-mark :
      (key id : Text) (s : S) (place : Place) → d.ids (mark d key id s) place ≡ d.ids s place
  unfolding mark
  ids-mark key id s place = rw (d.ids-set_shared, d.ids-set_shared, d.ids-set_shared) refl

  -- Which resource a key finds depends on the marks alone.
  pub find_owned-SameMarks :
      (place : Place) (key : Text) (s next : S)
      → SameMarks d s next
      → find_owned d place key next ≡ find_owned d place key s
  unfolding find_owned owned
  find_owned-SameMarks place key s next same = rw (same.same_ids place) (
      find_congr (owned d next key) (owned d s key) (d.ids s place)
        (λ id m. rw (same.same_data id (text "owner"), same.same_data id (text "key")) refl))

  -- A new resource that has been marked is the one that its key finds.
  made_found :
      (place : Place) (key id : Text) (s next : S)
      → IsCreation d place s id next
      → find_owned d place key s ≡ none
      → find_owned d place key (mark d key id next) ≡ some id
  unfolding find_owned owned
  made_found place key id s next new absent =
      rw (ids-mark key id next place, new.listed)
        (find-last (owned d (mark d key id next) key) (d.ids s place) id
          (λ other m.
            rw
              (
                mark_other key id other (text "owner") next (new.fresh place other m),
                mark_other key id other (text "key") next (new.fresh place other m),
                new.same_shared other (text "owner") (new.fresh place other m),
                new.same_shared other (text "key") (new.fresh place other m),
              )
              (find-none (owned d s key) (d.ids s place) other absent m))
          (owned-mark key id next))

  marked_found :
      (place : Place) (created_one : Option (Text × S)) (key : Text) (s next : S)
      (outcome : ResourceOutcome) (id : Text)
      → ((id : Text) (next : S) → created_one ≡ some (id, next) → IsCreation d place s id next)
      → find_owned d place key s ≡ none
      → marked d key created_one ≡ held outcome id next
      → find_owned d place key next ≡ some id
  marked_found place none key s next outcome id creates absent h = cc (h)
  marked_found place (some (made, after)) key s next outcome id creates absent h =
      let e_id : made ≡ id = cc (h) in
      let e_next : mark d key made after ≡ next = cc (h) in
      rw (sym e_next, sym e_id) (made_found place key made s after (creates made after refl) absent)

  -- A key finds the resource that it has obtained.
  pub obtain-find_owned :
      (create : S → Option (Text × S)) (place : Place) (key name : Text) (s next : S)
      (outcome : ResourceOutcome) (id : Text)
      → ((id : Text) (next : S) → create s ≡ some (id, next) → IsCreation d place s id next)
      → obtain d create place key name s ≡ held outcome id next
      → find_owned d place key next ≡ some id
  unfolding obtain
  obtain-find_owned create place key name s next outcome id creates h =
      elim (Option-cases (find_owned d place key s)) [
        | inr (other, found) ↦
            let e_id : other ≡ id = cc (rw found at h) in
            let e_next : s ≡ next = cc (rw found at h) in rw (sym e_next, sym e_id) found
        | inl absent ↦ elim (Option-cases (find_named d place name s)) [
          | inr (other, same) ↦ cc (rw (absent, same) at h)
          | inl free ↦
              marked_found place (create s) key s next outcome id creates absent
                (rw (absent, free) at h)
        ]
      ]
