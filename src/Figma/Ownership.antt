-- ===== src/Figma/Ownership.antt =====
-- The decision over a resource.
use smart_parcel_locker.Prelude.{
  Text, text_eq, text_eq_iff, Bool, true, false, ◌&&◌, Option, none, some, ◌≡◌, refl, ◌↔◌,
  if◌then◌else◌, arith,
}
use smart_parcel_locker.Figma.{
  update, skip, conflict, ExistingResource, FoundResource, decide_mutation, resource_decision,
  plugin_owner,
}

-- What the domain is told of a resource.
abbrev pub as_existing : Option FoundResource → Text → Option ExistingResource
as_existing none key = none
as_existing (some r) key =
    some
      (record { name_matches = r.name_matches; owner = r.owner; key_matches = text_eq r.key key })

update_of_test :
    (owned same_name : Bool)
    → (if owned then update else if same_name then conflict else skip) ≡ update
    → owned ≡ true
update_of_test true same_name h = refl
update_of_test false true h = cc (h)
update_of_test false false h = cc (h)

both : (a b : Bool) → (a && b) ≡ true → (a ≡ true) × (b ≡ true)
both a b h = ground arith

update_iff :
    (r : FoundResource) (key : Text)
    → (resource_decision (some r) key ≡ update) ↔ ((r.owner ≡ plugin_owner) × (r.key ≡ key))
unfolding resource_decision
update_iff r key = (
  λ h.
      let (own, same) =
        both (text_eq r.owner plugin_owner) (text_eq r.key key)
          (update_of_test (text_eq r.owner plugin_owner && text_eq r.key key) r.name_matches h) in
      ((text_eq_iff r.owner plugin_owner).0 own, (text_eq_iff r.key key).0 same),
  λ (own, same). rw ((text_eq_iff r.owner plugin_owner).1 own, (text_eq_iff r.key key).1 same) refl,
)

-- The decision that the adapter takes over a resource is that of the domain, where the keys are
-- compared, and a resource is updated exactly if it exists, is the plugin's own and has the key.
pub resource_decision-update :
    (existing : Option FoundResource) (key : Text)
    → (resource_decision existing key ≡ decide_mutation (as_existing existing key))
      × ((resource_decision existing key ≡ update)
          ↔ ((r : FoundResource) × (existing ≡ some r) × (r.owner ≡ plugin_owner) × (r.key ≡ key)))
unfolding resource_decision decide_mutation
resource_decision-update none key = (refl, (λ h. cc (h), λ (r, e, own, same). cc (e)))
resource_decision-update (some r) key = (
  refl,
  (
    λ h. let (own, same) = (update_iff r key).0 h in (r, refl, own, same),
    λ (r', e, own, same). (update_iff r key).1 (cc (e, own), cc (e, same)),
  ),
)
