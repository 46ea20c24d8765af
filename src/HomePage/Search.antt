-- ===== src/HomePage/Search.antt =====
-- The search of the first page finds the sites whose name or address holds the keyword.
use smart_parcel_locker.Prelude.{
  Text, truthy, Bool, true, ◌||◌, ◌==◌, ==_iff, Bool-cases, List, [], ◌∷◌, ◌++◌, ◌≡◌, refl, ap, ap₂,
  ◌↔◌, ◌⊎◌, inl, inr, Memᴰ, arith, if◌then◌else◌,
}
use smart_parcel_locker.SiteView.{SiteCardView}
use smart_parcel_locker.HomePage.{starts_with, includes, matching, filtered_sites}

-- The text holds the keyword.
abbrev pub Contains : Text → Text → Type 0
Contains t keyword = (before : Text) × (after : Text) × (t ≡ before ++ (keyword ++ after))

abbrev Begins : Text → Text → Type 0
Begins t keyword = (after : Text) × (t ≡ keyword ++ after)

Begins-of_starts_with : (t k : Text) → starts_with t k ≡ true → Begins t k
Begins-of_starts_with t [] h = (t, refl)
Begins-of_starts_with [] (d ∷ k) h = cc (h)
Begins-of_starts_with (c ∷ t) (d ∷ k) h = elim (Bool-cases (c == d)) [
  | inl same ↦
      let (after, p) = Begins-of_starts_with t k (rw same at h) in
      (after, ap₂ (λ x y. x ∷ y) ((==_iff c d).0 same) p)
  | inr other ↦ cc (rw other at h)
]

starts_with-append : (k after : Text) → starts_with (k ++ after) k ≡ true
starts_with-append [] [] = refl
starts_with-append [] (c ∷ after) = refl
starts_with-append (d ∷ k) after = rw ((==_iff d d).1 refl) (starts_with-append k after)

Contains-of_includes : (t k : Text) → includes t k ≡ true → Contains t k
unfolding includes
Contains-of_includes [] k h = let (after, p) = Begins-of_starts_with [] k h in ([], after, p)
Contains-of_includes (c ∷ t) k h = elim (Bool-cases (starts_with (c ∷ t) k)) [
  | inl here ↦ let (after, p) = Begins-of_starts_with (c ∷ t) k here in ([], after, p)
  | inr other ↦
      let (before, after, p) = Contains-of_includes t k (rw other at h) in
      (c ∷ before, after, ap (λ x. c ∷ x) p)
]

includes_of_starts_with : (t k : Text) → starts_with t k ≡ true → includes t k ≡ true
unfolding includes
includes_of_starts_with [] k h = h
includes_of_starts_with (c ∷ t) k h = rw h refl

includes-append : (before k after : Text) → includes (before ++ (k ++ after)) k ≡ true
unfolding includes
includes-append [] k after = includes_of_starts_with (k ++ after) k (starts_with-append k after)
includes-append (c ∷ before) k after = ground (arith, includes-append before k after)

includes_of_Contains : (t k : Text) → Contains t k → includes t k ≡ true
includes_of_Contains t k (before, after, p) = rw p (includes-append before k after)

-- The name or the address of the site holds the keyword.
abbrev pub Matches : SiteCardView → Text → Type 0
Matches site keyword = Contains site.name keyword ⊎ Contains site.address keyword

matches : SiteCardView → Text → Bool
matches site keyword = includes site.name keyword || includes site.address keyword

Matches-of_matches : (site : SiteCardView) (k : Text) → matches site k ≡ true → Matches site k
unfolding matches
Matches-of_matches site k h = elim (Bool-cases (includes site.name k)) [
  | inl named ↦ inl (Contains-of_includes site.name k named)
  | inr other ↦ inr (Contains-of_includes site.address k (rw other at h))
]

matches_of_Matches : (site : SiteCardView) (k : Text) → Matches site k → matches site k ≡ true
unfolding matches
matches_of_Matches site k (inl named) = rw (includes_of_Contains site.name k named) refl
matches_of_Matches site k (inr placed) = ground (arith, includes_of_Contains site.address k placed)

-- The sites that match, in their order.
matching_cons :
    (k : Text) (s : SiteCardView) (sites : List SiteCardView)
    → matching k (s ∷ sites) ≡ (if matches s k then s ∷ matching k sites else matching k sites)
unfolding matching matches
matching_cons k s sites = refl

-- A site of a longer result, from one of the shorter result.
found_in_cons :
    (k : Text) (site s : SiteCardView) (sites found : List SiteCardView)
    → matches s k ≡ true
    → (Memᴰ site found → Memᴰ site sites × Matches site k)
    → Memᴰ site (s ∷ found)
    → Memᴰ site (s ∷ sites) × Matches site k
found_in_cons k site s sites found h later (Memᴰ.head e) =
    (Memᴰ.head e, Matches-of_matches site k (rw e h))
found_in_cons k site s sites found h later (Memᴰ.tail m) = let (p, q) = later m in (Memᴰ.tail p, q)

Memᴰ-matching :
    (k : Text) (site : SiteCardView) (sites : List SiteCardView)
    → Memᴰ site (matching k sites)
    → Memᴰ site sites × Matches site k
unfolding matching
Memᴰ-matching k site [] h = elim h [ ]
Memᴰ-matching k site (s ∷ sites) h = elim (Bool-cases (matches s k)) [
  | inl found ↦
      found_in_cons k site s sites (matching k sites) found (Memᴰ-matching k site sites)
        (rw (matching_cons k s sites, found) at h)
  | inr other ↦
      let (p, q) = Memᴰ-matching k site sites (rw (matching_cons k s sites, other) at h) in
      (Memᴰ.tail p, q)
]

matching-Memᴰ :
    (k : Text) (site : SiteCardView) (sites : List SiteCardView)
    → Memᴰ site sites
    → matches site k ≡ true
    → Memᴰ site (matching k sites)
matching-Memᴰ k site [] m h = elim m [ ]
matching-Memᴰ k site (s ∷ sites) (Memᴰ.head e) h =
    rw (matching_cons k s sites, (rw e at h)) (Memᴰ.head e)
matching-Memᴰ k site (s ∷ sites) (Memᴰ.tail m) h = elim (Bool-cases (matches s k)) [
  | inl found ↦ rw (matching_cons k s sites, found) (Memᴰ.tail (matching-Memᴰ k site sites m h))
  | inr other ↦ rw (matching_cons k s sites, other) (matching-Memᴰ k site sites m h)
]

-- With a keyword, the search shows a site exactly if it is one of the sites near the user and its
-- name or its address holds the keyword.
pub filtered_sites_iff :
    (keyword : Text) (sites : List SiteCardView) (site : SiteCardView)
    → truthy keyword ≡ true
    → Memᴰ site (filtered_sites keyword sites) ↔ (Memᴰ site sites × Matches site keyword)
unfolding filtered_sites
filtered_sites_iff keyword sites site searching = (
  λ h. Memᴰ-matching keyword site sites (rw searching at h),
  λ (m, h). rw searching (matching-Memᴰ keyword site sites m (matches_of_Matches site keyword h)),
)
