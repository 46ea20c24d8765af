-- ===== src/Figma/Drawing/Label.antt =====
-- The label of a screen, written again.
use smart_parcel_locker.Prelude.{
  Text, text, text_eq, text_eq_iff, text_eq_refl, Bool, true, false, Bool-cases, some, List, [],
  ◌∷◌, ◌≡◌, refl, sym, ap, ◌∙◌, inl, inr,
}
use smart_parcel_locker.Figma.Requests.{Value, number, word}
use smart_parcel_locker.Figma.Adapter.{property}
use smart_parcel_locker.Figma.Drawing.{Node, node, nil, text_node, without, assign, inter}
use smart_parcel_locker.Figma.Drawing.Screen.{is_label, label_look, relabel, put_label}
use smart_parcel_locker.Figma.Drawing.Removal.{Implies}

-- A property that has been set is set again to no effect.
pub assign_same :
    (name : Text) (value : Value) (look : List (Text × Value))
    → property name look ≡ some value
    → assign name value look ≡ look
unfolding property
assign_same name value [] h = cc (h)
assign_same name value ((other, old) ∷ rest) h = elim (Bool-cases (text_eq name other)) [
  | inl t ↦
      let same : name ≡ other = (text_eq_iff name other).0 t in
      let same_value : old ≡ value = cc (rw t at h) in rw (t, same, same_value) refl
  | inr f ↦ rw (f, assign_same name value rest (rw f at h)) refl
]

pub property-assign :
    (name : Text) (value : Value) (look : List (Text × Value))
    → property name (assign name value look) ≡ some value
unfolding property
property-assign name value [] = rw (text_eq_refl name) refl
property-assign name value ((other, old) ∷ rest) = elim (Bool-cases (text_eq name other)) [
  | inl t ↦ rw (t, text_eq_refl name) refl
  | inr f ↦ rw (f, f) (property-assign name value rest)
]

pub property-assign_ne :
    (name other : Text) (value : Value) (look : List (Text × Value))
    → text_eq name other ≡ false
    → property name (assign other value look) ≡ property name look
unfolding property
property-assign_ne name other value [] ne = rw ne refl
property-assign_ne name other value ((third, old) ∷ rest) ne =
    elim (Bool-cases (text_eq other third)) [
      | inl t ↦
          let third_ne : text_eq name third ≡ false = rw (sym ((text_eq_iff other third).0 t)) ne in
          rw (t, ne, third_ne) refl
      | inr f ↦ rw (f, property-assign_ne name other value rest ne) refl
    ]

-- Three properties that are set again.
pub three_again :
    (a b c : Text) (u v w : Value) (look : List (Text × Value))
    → text_eq b a ≡ false
    → text_eq c a ≡ false
    → text_eq c b ≡ false
    → assign a u (assign b v (assign c w (assign a u (assign b v (assign c w look)))))
      ≡ assign a u (assign b v (assign c w look))
three_again a b c u v w look ba ca cb =
    let inner = assign c w look in
    let middle = assign b v inner in
    let has_c : property c (assign a u middle) ≡ some w =
      property-assign_ne c a u middle ca
      ∙ property-assign_ne c b v inner cb
      ∙ property-assign c w look in
    let has_b : property b (assign a u middle) ≡ some v =
      property-assign_ne b a u middle ba ∙ property-assign b v inner in
    ap (λ l. assign a u (assign b v l)) (assign_same c w (assign a u middle) has_c)
    ∙ ap (λ l. assign a u l) (assign_same b v (assign a u middle) has_b)
    ∙ assign_same a u (assign a u middle) (property-assign a u middle)

pub label_look_again :
    (title : Text) (look : List (Text × Value))
    → label_look true title (label_look true title look) ≡ label_look true title look
unfolding text text_eq
label_look_again title look =
    three_again (text "characters") (text "fontSize") (text "fontName") (word title) (number 16)
      (inter (text "Semi Bold")) look refl refl refl

pub relabel_again :
    (title : Text) (n : Node) → relabel true title (relabel true title n) ≡ relabel true title n
relabel_again title (node kind name look inner) =
    ap (λ l. node kind name l inner) (label_look_again title look)

pub relabel-is_label : (title : Text) (n : Node) → is_label (relabel true title n) ≡ is_label n
relabel-is_label title (node kind name look inner) = refl

abbrev pub new_label : Text → Node
new_label title = relabel true title (node text_node (some (text "Generated Label")) [] nil)

pub is_label-new : (title : Text) → is_label (new_label title) ≡ true
is_label-new title = text_eq_refl (text "Generated Label")

-- To write a label twice is to write it once.
pub put_label_again :
    (title : Text) (xs : List Node)
    → put_label true title (put_label true title xs) ≡ put_label true title xs
unfolding put_label text text_eq
put_label_again title [] =
    ap (λ n. n ∷ []) (relabel_again title (node text_node (some (text "Generated Label")) [] nil))
put_label_again title (n ∷ rest) = elim (Bool-cases (is_label n)) [
  | inl t ↦ rw (t, relabel-is_label title n, t) (ap (λ n. n ∷ rest) (relabel_again title n))
  | inr f ↦ rw (f, f, put_label_again title rest) refl
]

-- A test that depends on the name alone and that no label passes.
unfoldable pub Spares : (Node → Bool) → Type 0
Spares p =
    ((n : Node) → is_label n ≡ true → p n ≡ false)
    × ((title : Text) (n : Node) → p (relabel true title n) ≡ p n)

pub put_label-without :
    (p : Node → Bool) (title : Text) (xs : List Node)
    → Spares p
    → without p (put_label true title xs) ≡ put_label true title (without p xs)
unfolding put_label Spares
put_label-without p title [] (spared, same) =
    rw (spared (new_label title) (is_label-new title)) refl
put_label-without p title (n ∷ rest) (spared, same) = elim (Bool-cases (is_label n)) [
  | inl t ↦ rw (t, same title n, spared n t, t) refl
  | inr f ↦ elim (Bool-cases (p n)) [
    | inl u ↦ rw (f, u) (put_label-without p title rest (spared, same))
    | inr g ↦ rw (f, g, f, put_label-without p title rest (spared, same)) refl
  ]
]

-- The test of a label aside, the label is not seen.
pub without-put_label :
    (p : Node → Bool) (title : Text) (xs : List Node)
    → Implies is_label p
    → without p (put_label true title xs) ≡ without p xs
unfolding put_label Implies
without-put_label p title [] h = rw (h (new_label title) (is_label-new title)) refl
without-put_label p title (n ∷ rest) h = elim (Bool-cases (is_label n)) [
  | inl t ↦ rw (t, h n t, h (relabel true title n) (relabel-is_label title n ∙ t)) refl
  | inr f ↦ elim (Bool-cases (p n)) [
    | inl u ↦ rw (f, u) (without-put_label p title rest h)
    | inr g ↦ rw (f, g, without-put_label p title rest h) refl
  ]
]
