-- ===== src/Figma/Adapter/Rerun.antt =====
-- What an upsert leaves: the resource of the key is found, the others stay, and where the key was
-- found before, nothing is made.
use smart_parcel_locker.Prelude.{
  arith, Text, Bool, true, false, Option, some, Result, ok, err, Holds, ◌≡◌, ◌≢◌, refl, ◌∙◌, ◌⊎◌,
  inl, inr,
}
use smart_parcel_locker.Figma.{ResourceOutcome, created, updated, failed, ResourceResult}
use smart_parcel_locker.Figma.Report.{is_failure}
use smart_parcel_locker.Figma.Requests.{ResourceSpec}
use smart_parcel_locker.Figma.Document.{
  Document, Place, IsCreation, SameMarks, Obtained, held, taken, missing, find_owned, obtain,
}
use smart_parcel_locker.Figma.Document.Again.{obtain-find_owned, find_owned-SameMarks}
use smart_parcel_locker.Figma.Document.Kept.{Keeps, Keeps-refl, Keeps-trans, obtain-Keeps}
use smart_parcel_locker.Figma.Adapter.{Calls, Answer, settle}

apart : (b : Bool) → b ≡ true → b ≡ false → ⊥
apart b h k = ground arith

no_failure_both :
    (a r : ResourceResult) → is_failure a ≡ true → ok a ≡ ok r → is_failure r ≡ false → ⊥
no_failure_both a r bad e good =
    let same : a ≡ r = cc (e) in apart (is_failure r) (rw same at bad) good

pub not_created :
    (answer : Result ResourceResult)
    → Holds (λ (r : ResourceResult). (r.outcome ≡ updated) ⊎ (r.outcome ≡ failed)) answer
    → Holds (λ (r : ResourceResult). r.outcome ≢ created) answer
not_created (err e) h = tt
not_created (ok r) (inl h) = λ made. cc (h, made)
not_created (ok r) (inr h) = λ made. cc (h, made)

module _ {S : Type 0} (d : Document S) where
  pub some_pair :
      (made : Text × S) (id : Text) (next : S)
      → some made ≡ some (id, next)
      → (made.0 ≡ id) × (made.1 ≡ next)
  some_pair made id next e = let same : made ≡ (id, next) = cc (e) in (rw same refl, rw same refl)

  -- A key of the plugin finds a resource.
  unfoldable pub Found : Place → Text → S → Type 0
  Found place key s = (id : Text) × (find_owned d place key s ≡ some id)

  pub SameMarks-refl : (s : S) → SameMarks d s s
  SameMarks-refl s = record { same_ids = λ place. refl; same_data = λ id field. refl }

  pub SameMarks-trans :
      (s next last : S) → SameMarks d s next → SameMarks d next last → SameMarks d s last
  SameMarks-trans s next last a b = record {
    same_ids = λ place. b.same_ids place ∙ a.same_ids place;
    same_data = λ id field. b.same_data id field ∙ a.same_data id field;
  }

  pub set_name-SameMarks : (id name : Text) (s : S) → SameMarks d s (d.set_name id name s)
  set_name-SameMarks id name s = record {
    same_ids = λ place. d.ids-set_name id name s place;
    same_data = λ other field. d.shared-set_name id name other field s;
  }

  pub Keeps-of_SameMarks : (s next : S) → SameMarks d s next → Keeps d s next
  unfolding Keeps
  Keeps-of_SameMarks s next same place key id h = find_owned-SameMarks d place key s next same ∙ h

  pub Found-Keeps :
      (place : Place) (key : Text) (s next : S)
      → Keeps d s next
      → Found place key s
      → Found place key next
  unfolding Found Keeps
  Found-Keeps place key s next keeps (id, h) = (id, keeps place key id h)

  -- What fills a resource leaves the marks, and answers with the outcome that it was given, or an error.
  unfoldable pub Fills : (ResourceOutcome → Text → S → Answer S) → Type 0
  Fills fill =
      (outcome : ResourceOutcome) (id : Text) (s : S)
      → SameMarks d s (fill outcome id s).0
        × Holds (λ (r : ResourceResult). (r.outcome ≡ outcome) ⊎ (r.outcome ≡ failed))
            (fill outcome id s).1

  unfoldable pub Creates : (S → Option (Text × S)) → Place → Type 0
  Creates create place =
      (s : S) (id : Text) (next : S) → create s ≡ some (id, next) → IsCreation d place s id next

  -- The answer is no new resource.
  unfoldable pub IsOld : Answer S → Type 0
  IsOld answer = Holds (λ (r : ResourceResult). r.outcome ≢ created) answer.1

  -- What an upsert does to a file: no own resource is lost, the key finds a resource unless the answer is
  -- a failure, and where it found one before, nothing is made.
  pub record Upserts (place : Place) (spec : ResourceSpec) (s : S) (answer : Answer S)
      : Type 0 where
    pub keeps : Keeps d s answer.0
    pub finds :
        (r : ResourceResult)
        → answer.1 ≡ ok r
        → is_failure r ≡ false
        → Found place spec.key answer.0
    pub again : Found place spec.key s → SameMarks d s answer.0 × IsOld answer

module _ {S : Type 0} (d : Document S) (c : Calls d) (create : S → Option (Text × S))
    (place : Place) (key name : Text) (on_conflict : Text → ResourceResult)
    (lacking : ResourceResult) (fill : ResourceOutcome → Text → S → Answer S)
    (creates : Creates d create place) (fills : Fills d fill) where
  Found-after :
      (s : S) (o : Obtained S) (r : ResourceResult)
      → obtain d create place key name s ≡ o
      → ((id : Text) → is_failure (on_conflict id) ≡ true)
      → is_failure lacking ≡ true
      → (settle d c s o on_conflict lacking fill).1 ≡ ok r
      → is_failure r ≡ false
      → Found d place key (settle d c s o on_conflict lacking fill).0
  unfolding Found Creates Fills
  Found-after s (held outcome id next) r h conflict lack e good = (
    id,
    find_owned-SameMarks d place key next (fill outcome id next).0 (fills outcome id next).0
        ∙ obtain-find_owned d create place key name s next outcome id (creates s) h,
  )
  Found-after s (taken id) r h conflict lack e good =
      absurd (no_failure_both (on_conflict id) r (conflict id) e good)
  Found-after s missing r h conflict lack e good = absurd (no_failure_both lacking r lack e good)

  kept_after :
      (s : S) (o : Obtained S)
      → obtain d create place key name s ≡ o
      → Keeps d s (settle d c s o on_conflict lacking fill).0
  unfolding Creates Fills
  kept_after s (held outcome id next) h =
      Keeps-trans d s next (fill outcome id next).0
        (obtain-Keeps d create place key name s next outcome id (creates s) h)
        (Keeps-of_SameMarks d next (fill outcome id next).0 (fills outcome id next).0)
  kept_after s (taken id) h = Keeps-refl d s
  kept_after s missing h = Keeps-refl d s

  pub settle-Found :
      (s : S) (r : ResourceResult)
      → ((id : Text) → is_failure (on_conflict id) ≡ true)
      → is_failure lacking ≡ true
      → (settle d c s (obtain d create place key name s) on_conflict lacking fill).1 ≡ ok r
      → is_failure r ≡ false
      → Found d place key
          (settle d c s (obtain d create place key name s) on_conflict lacking fill).0
  settle-Found s r = Found-after s (obtain d create place key name s) r refl

  pub settle-Keeps :
      (s : S)
      → Keeps d s (settle d c s (obtain d create place key name s) on_conflict lacking fill).0
  settle-Keeps s = kept_after s (obtain d create place key name s) refl

  pub settle-Old :
      (s : S)
      → Found d place key s
      → SameMarks d s (settle d c s (obtain d create place key name s) on_conflict lacking fill).0
        × IsOld d (settle d c s (obtain d create place key name s) on_conflict lacking fill)
  unfolding Found Fills obtain IsOld
  settle-Old s (id, found) =
      rw found ((fills updated id s).0, not_created (fill updated id s).1 (fills updated id s).1)

  pub settle-Upserts :
      (s : S) (spec : ResourceSpec)
      → spec.key ≡ key
      → ((id : Text) → is_failure (on_conflict id) ≡ true)
      → is_failure lacking ≡ true
      → Upserts d place spec s
          (settle d c s (obtain d create place key name s) on_conflict lacking fill)
  settle-Upserts s spec same conflict lack = record {
    keeps = settle-Keeps s;
    finds = λ r e good. rw same (settle-Found s r conflict lack e good);
    again = λ found. settle-Old s (rw same at found);
  }
