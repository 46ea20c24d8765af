-- ===== src/Http/Wire.antt =====
-- What goes over the wire for a request, described without the function that builds it.
use smart_parcel_locker.Prelude.{
  ap₂, Text, text, Option, none, some, ◌or◌, List, [], ◌∷◌, ◌++◌, ok, >>=-eq-ok, ◌==◌, ◌≡◌, ◌≢◌,
  refl, sym, ap, ◌∙◌, ◌⊎◌, inl, inr, Bool-cases, ==_iff,
}
use smart_parcel_locker.Prelude.Uri.{encode_uri_component}
use smart_parcel_locker.Http.{
  wire_by, ℕ, Method, get, post, Scalar, RequestInput, WireRequest, show_scalar, query_parts, join,
  normalized_base_url, with_query, wire_request,
}

-- The query of these entries, behind a first separator: each entry with a value stands as
-- `key=value`, both encoded, with `&` before the later ones.
abbrev pub Query : ℕ → List (Text × Option Scalar) → Text → Type 0
Query separator [] q = q ≡ []
Query separator ((key, none) ∷ rest) q = Query separator rest q
Query separator ((key, some value) ∷ rest) q =
    (k : Text) × (v : Text) × (later : Text) × (encode_uri_component key ≡ ok k)
    × (encode_uri_component (show_scalar value) ≡ ok v)
    × Query b'&' rest later
    × (q ≡ separator ∷ (k ++ b'=' ∷ (v ++ later)))

-- The base address without the slash that it may end in.
abbrev pub Root : Text → Text → Type 0
Root base root =
    (base ≡ root ++ text "/") ⊎ ((base ≡ root) × ¬ ((s : Text) × (base ≡ s ++ text "/")))

-- The body and the header go with the method.
abbrev pub Carries : Method → RequestInput → WireRequest → Type 0
Carries get input wire = (wire.method ≡ get) × (wire.body ≡ none) × (wire.header ≡ [])
Carries post input wire =
    (wire.method ≡ post)
    × (wire.body ≡ some (input.body or []))
    × (wire.header ≡ (text "content-type", text "application/json") ∷ [])

-- The request that is sent for an input.
abbrev pub Sent : Text → RequestInput → WireRequest → Type 0
Sent base input wire =
    (root : Text) × (query : Text) × Root base root
    × Query b'?' (input.query or []) query
    × (wire.url ≡ root ++ (input.path ++ query))
    × Carries (input.method or get) input wire

-- The parts behind a first separator
render : ℕ → List Text → Text
render separator [] = []
render separator (p ∷ rest) = separator ∷ (p ++ render b'&' rest)

append_none : (s : Text) → s ++ [] ≡ s
append_none [] = refl
append_none (c ∷ s) = ap (λ r. c ∷ r) (append_none s)

append_later : (a b c : Text) → (a ++ b) ++ c ≡ a ++ (b ++ c)
append_later [] b c = refl
append_later (x ∷ a) b c = ap (λ r. x ∷ r) (append_later a b c)

join-render : (p : Text) (rest : List Text) → join (p ∷ rest) ≡ p ++ render b'&' rest
unfolding join render
join-render p [] = sym (append_none p)
join-render p (q ∷ rest) = ap (λ r. p ++ b'&' ∷ r) (join-render q rest)

query_parts-Query :
    (separator : ℕ) (entries : List (Text × Option Scalar)) (parts : List Text)
    → query_parts entries ≡ ok parts
    → Query separator entries (render separator parts)
unfolding query_parts render
query_parts-Query separator [] parts h = let e : parts ≡ [] = cc (h) in rw e refl
query_parts-Query separator ((key, none) ∷ rest) parts h = query_parts-Query separator rest parts h
query_parts-Query separator ((key, some value) ∷ rest) parts h =
    let (k, ek, h1) = >>=-eq-ok (encode_uri_component key) _ h in
    let (v, ev, h2) = >>=-eq-ok (encode_uri_component (show_scalar value)) _ h1 in
    let (later, el, h3) = >>=-eq-ok (query_parts rest) _ h2 in
    let e : parts ≡ (k ++ b'=' ∷ v) ∷ later = cc (h3) in
    rw e (
      k,
      v,
      render b'&' later,
      ek,
      ev,
      query_parts-Query b'&' rest later el,
      ap (λ r. separator ∷ r) (append_later k (b'=' ∷ v) (render b'&' later)),
    )

parts_of_Query :
    (separator : ℕ) (entries : List (Text × Option Scalar)) (q : Text)
    → Query separator entries q
    → (parts : List Text) × (query_parts entries ≡ ok parts) × (q ≡ render separator parts)
unfolding query_parts render
parts_of_Query separator [] q h = ([], refl, h)
parts_of_Query separator ((key, none) ∷ rest) q h = parts_of_Query separator rest q h
parts_of_Query separator ((key, some value) ∷ rest) q (k, v, later, ek, ev, h, e) =
    let (parts, p, r) = parts_of_Query b'&' rest later h in
    (
      (k ++ b'=' ∷ v) ∷ parts,
      rw (ek, ev, p) refl,
      rw (e, r) (ap (λ s. separator ∷ s) (sym (append_later k (b'=' ∷ v) (render b'&' parts)))),
    )

with_query-entry : (k v : Text) → with_query (k ++ b'=' ∷ v) ≡ b'?' ∷ (k ++ b'=' ∷ v)
unfolding with_query
with_query-entry [] v = refl
with_query-entry (c ∷ k) v = refl

-- The query as it is put behind the path
with_query-join :
    (entries : List (Text × Option Scalar)) (parts : List Text)
    → query_parts entries ≡ ok parts
    → with_query (join parts) ≡ render b'?' parts
unfolding query_parts
with_query-join [] parts h =
    let e : parts ≡ [] = cc (h) in rw e (unfold with_query join render in refl)
with_query-join ((key, none) ∷ rest) parts h = with_query-join rest parts h
with_query-join ((key, some value) ∷ rest) parts h =
    let (k, ek, h1) = >>=-eq-ok (encode_uri_component key) _ h in
    let (v, ev, h2) = >>=-eq-ok (encode_uri_component (show_scalar value)) _ h1 in
    let (later, el, h3) = >>=-eq-ok (query_parts rest) _ h2 in
    let e : parts ≡ (k ++ b'=' ∷ v) ∷ later = cc (h3) in
    let glue = append_later k (b'=' ∷ v) (render b'&' later) in
    rw e (
      ap with_query (join-render (k ++ b'=' ∷ v) later ∙ glue)
      ∙ with_query-entry k (v ++ render b'&' later)
      ∙ unfold render in ap (λ r. b'?' ∷ r) (sym glue))

not_empty : (s : Text) → [] ≢ s ++ text "/"
unfolding text
not_empty [] h = cc (h)
not_empty (c ∷ s) h = cc (h)

last_alone : (c : ℕ) (s : Text) → c ∷ [] ≡ s ++ text "/" → c ≡ b'/'
unfolding text
last_alone c [] h = cc (h)
last_alone c (d ∷ s) h = let e : [] ≡ s ++ text "/" = cc (h) in absurd (not_empty s e)

drop_first :
    (c d : ℕ) (s t : Text) → c ∷ (d ∷ s) ≡ t ++ text "/" → (u : Text) × (d ∷ s ≡ u ++ text "/")
unfolding text
drop_first c d s [] h = cc (h)
drop_first c d s (x ∷ t) h = (t, cc (h))

Root-cons : (c d : ℕ) (s root : Text) → Root (d ∷ s) root → Root (c ∷ (d ∷ s)) (c ∷ root)
Root-cons c d s root (inl e) = inl (ap (λ r. c ∷ r) e)
Root-cons c d s root (inr (e, rootless)) =
    inr (ap (λ r. c ∷ r) e, λ (t, p). rootless (drop_first c d s t p))

normalized_base_url-Root : (base : Text) → Root base (normalized_base_url base)
unfolding normalized_base_url
normalized_base_url-Root [] = inr (refl, λ (s, p). not_empty s p)
normalized_base_url-Root (c ∷ []) = elim (Bool-cases (c == b'/')) [
  | inl slash ↦ rw slash (inl (unfold text in ap (λ x. x ∷ []) ((==_iff c b'/').0 slash)))
  | inr other ↦ rw other (inr (refl, λ (s, p). cc (other, (==_iff c b'/').1 (last_alone c s p))))
]
normalized_base_url-Root (c ∷ d ∷ s) =
    Root-cons c d s (normalized_base_url (d ∷ s)) (normalized_base_url-Root (d ∷ s))

strip : (a b : Text) → a ++ text "/" ≡ b ++ text "/" → a ≡ b
unfolding text
strip [] [] h = refl
strip [] (y ∷ b) h = let e : [] ≡ b ++ text "/" = cc (h) in absurd (not_empty b e)
strip (x ∷ a) [] h = let e : [] ≡ a ++ text "/" = cc (h) in absurd (not_empty a e)
strip (x ∷ a) (y ∷ b) h = let e : a ++ text "/" ≡ b ++ text "/" = cc (h) in cc (h, strip a b e)

Root-unique : (base a b : Text) → Root base a → Root base b → a ≡ b
Root-unique base a b (inl p) (inl q) = strip a b (sym p ∙ q)
Root-unique base a b (inl p) (inr (q, rootless)) = absurd (rootless (a, p))
Root-unique base a b (inr (p, rootless)) (inl q) = absurd (rootless (b, q))
Root-unique base a b (inr (p, _)) (inr (q, _)) = sym p ∙ q

url-wire_by : (m : Method) (url : Text) (input : RequestInput) → (wire_by m url input).url ≡ url
unfolding wire_by
url-wire_by get url input = refl
url-wire_by post url input = refl

Carries-wire_by :
    (m : Method) (url : Text) (input : RequestInput) → Carries m input (wire_by m url input)
unfolding wire_by
Carries-wire_by get url input = (refl, refl, refl)
Carries-wire_by post url input = (refl, refl, refl)

url-wire_request :
    (base : Text) (input : RequestInput) (parts : List Text)
    → (wire_request base input (join parts)).url
      ≡ normalized_base_url base ++ (input.path ++ with_query (join parts))
unfolding wire_request
url-wire_request base input parts = url-wire_by (input.method or get) _ input

Carries-wire_request :
    (base : Text) (input : RequestInput) (q : Text)
    → Carries (input.method or get) input (wire_request base input q)
unfolding wire_request
Carries-wire_request base input q = Carries-wire_by (input.method or get) _ input

-- The url and what the method brings are all of a request.
wire_ext :
    (m : Method) (input : RequestInput) (v w : WireRequest)
    → v.url ≡ w.url
    → Carries m input v
    → Carries m input w
    → v ≡ w
wire_ext get input v w p (a, b, c) (d, e, f) = cc (p, a, b, c, d, e, f)
wire_ext post input v w p (a, b, c) (d, e, f) = cc (p, a, b, c, d, e, f)

pub wire_request-Sent :
    (base : Text) (input : RequestInput) (parts : List Text)
    → query_parts (input.query or []) ≡ ok parts
    → Sent base input (wire_request base input (join parts))
wire_request-Sent base input parts h = (
  normalized_base_url base,
  render b'?' parts,
  normalized_base_url-Root base,
  query_parts-Query b'?' (input.query or []) parts h,
  url-wire_request base input parts
      ∙ ap (λ q. normalized_base_url base ++ (input.path ++ q))
          (with_query-join (input.query or []) parts h),
  Carries-wire_request base input (join parts),
)

pub wire_request_of_Sent :
    (base : Text) (input : RequestInput) (wire : WireRequest)
    → Sent base input wire
    → (parts : List Text) × (query_parts (input.query or []) ≡ ok parts)
      × (wire ≡ wire_request base input (join parts))
wire_request_of_Sent base input wire (root, query, r, q, url, rest) =
    let (parts, p, e) = parts_of_Query b'?' (input.query or []) query q in
    let same_root =
      Root-unique base root (normalized_base_url base) r (normalized_base_url-Root base) in
    let same_query = e ∙ sym (with_query-join (input.query or []) parts p) in
    let same_url =
      url
      ∙ ap₂ (λ (a b : Text). a ++ (input.path ++ b)) same_root same_query
      ∙ sym (url-wire_request base input parts) in
    (
      parts,
      p,
      wire_ext (input.method or get) input wire (wire_request base input (join parts)) same_url rest
          (Carries-wire_request base input (join parts)),
    )
