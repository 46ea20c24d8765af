-- ===== src/Tests/Adapter.antt =====
-- The adapter of the plugin over a concrete file.
use smart_parcel_locker.Prelude.{
  Option, ℕ, ◌≤◌, ◌<◌, ◌&&◌, ◌==◌, ==_iff, Text, text, text_eq, text_eq_iff, text_eq_refl, false,
  Bool-cases, none, some, Result, List, [], ◌∷◌, ◌++◌, length, length-append, ok, Holds, ◌≡◌, ◌≢◌,
  refl, ◌⊎◌, inl, inr, Memᴰ, arith, if◌then◌else◌,
}
use smart_parcel_locker.Figma.{
  updated, foundations, created, RunReport, ResourceResult, create_run_report, record_result,
}
use smart_parcel_locker.Figma.Report.{record_all}
use smart_parcel_locker.Figma.Requests.{indexed, ResourceSpec, Value, number, word, words}
use smart_parcel_locker.Figma.Drawing.{Node}
use smart_parcel_locker.Figma.Drawing.Screen.{draw_screen}
use smart_parcel_locker.Figma.FoundationContent.{foundation_sections}
use smart_parcel_locker.Figma.Adapter.Nodes.{NodeCalls, fill_screen}
use smart_parcel_locker.Figma.Adapter.Nodes.Redrawn.{fill_screen-again}
use smart_parcel_locker.Prelude.Int.{pos}
use smart_parcel_locker.Figma.Stages.{FontDescriptor, upsert_all}
use smart_parcel_locker.Figma.Document.{
  Document, Place, pages, collections, variables, text_styles, effect_styles, IsCreation, SameMarks,
  find_owned, find_named, obtain, mark,
}
use smart_parcel_locker.Figma.Adapter.{Calls, upsert_page}
use smart_parcel_locker.Figma.Adapter.Styles.{upsert_text_style}
use smart_parcel_locker.Figma.Adapter.Port.{adapter, upsert_in}
use smart_parcel_locker.Figma.Adapter.SecondRun.{upsert_all-again}

-- A file in memory.
record File : Type 0 where
  listed : Place → List Text
  names : Text → Text
  marks : Text → Text → Text
  nodes : Text → List Node
  widths : Text → ℕ
  heights : Text → ℕ

abbrev tag : Place → ℕ
tag pages = 0
tag collections = 1
tag variables = 2
tag text_styles = 3
tag effect_styles = 4

abbrev joined : List Text → Text
joined [] = []
joined (t ∷ ts) = t ++ joined ts

abbrev all_ids : File → Text
all_ids s =
    joined (s.listed pages)
    ++ (joined (s.listed collections)
        ++ (joined (s.listed variables)
            ++ (joined (s.listed text_styles) ++ joined (s.listed effect_styles))))

-- An id that is longer than every other.
abbrev new_id : File → Text
new_id s = b'x' ∷ all_ids s

length-joined : (t : Text) (ts : List Text) → Memᴰ t ts → length t ≤ length (joined ts)
length-joined t [] m = elim m [ ]
length-joined t (u ∷ ts) (Memᴰ.head e) = rw e (omega (arith, length-append u (joined ts)))
length-joined t (u ∷ ts) (Memᴰ.tail m) =
    omega (arith, length-append u (joined ts), length-joined t ts m)

length-all_ids : (s : File) (place : Place) → length (joined (s.listed place)) ≤ length (all_ids s)
length-all_ids s pages = omega (arith, length-append (joined (s.listed pages)) _)
length-all_ids s collections = omega (
  arith,
  length-append (joined (s.listed pages)) _,
  length-append (joined (s.listed collections)) _,
)
length-all_ids s variables = omega (
  arith,
  length-append (joined (s.listed pages)) _,
  length-append (joined (s.listed collections)) _,
  length-append (joined (s.listed variables)) _,
)
length-all_ids s text_styles = omega (
  arith,
  length-append (joined (s.listed pages)) _,
  length-append (joined (s.listed collections)) _,
  length-append (joined (s.listed variables)) _,
  length-append (joined (s.listed text_styles)) (joined (s.listed effect_styles)),
)
length-all_ids s effect_styles = omega (
  arith,
  length-append (joined (s.listed pages)) _,
  length-append (joined (s.listed collections)) _,
  length-append (joined (s.listed variables)) _,
  length-append (joined (s.listed text_styles)) (joined (s.listed effect_styles)),
)

longer-ne : (a b : Text) → length b < length a → a ≢ b
longer-ne a b h e = absurd (omega (arith, rw e at h))

new_id-ne : (s : File) (place : Place) (old : Text) → Memᴰ old (s.listed place) → new_id s ≢ old
new_id-ne s place old m =
    longer-ne (new_id s) old
      (omega (arith, length-joined old (s.listed place) m, length-all_ids s place))

ne-text_eq : (a b : Text) → a ≢ b → text_eq a b ≡ false
ne-text_eq a b ne = elim (Bool-cases (text_eq a b)) [
  | inl t ↦ absurd (ne ((text_eq_iff a b).0 t))
  | inr f ↦ f
]

not_both :
    (id other field other_field : Text)
    → (id ≢ other) ⊎ (field ≢ other_field)
    → (text_eq id other && text_eq field other_field) ≡ false
not_both id other field other_field (inl ne) = rw (ne-text_eq id other ne) refl
not_both id other field other_field (inr ne) = ground (arith, ne-text_eq field other_field ne)

abbrev file_document : Document File
file_document = record {
  ids = λ s place. s.listed place;
  name = λ s id. s.names id;
  shared = λ s id field. s.marks id field;
  set_name = λ id t s. record s { names = λ other. if text_eq id other then t else s.names other };
  set_shared = λ id field value s. record s {
    marks = λ other other_field.
        if text_eq id other && text_eq field other_field then value else s.marks other other_field;
  };
  shared-set_name = λ id t other field s. refl;
  ids-set_name = λ id t s place. refl;
  shared-set_shared = λ id field value s. rw (text_eq_refl id, text_eq_refl field) refl;
  shared-set_shared_ne =
      λ id field value other other_field s h. rw (not_both id other field other_field h) refl;
  ids-set_shared = λ id field value s place. refl;
}

added : Place → File → Text × File
added place s = (
  new_id s,
  record s {
    listed =
        λ other. if tag other == tag place then s.listed other ++ new_id s ∷ [] else s.listed other;
  },
)

listed_or_not :
    (place other : Place) (s : File)
    → ((added place s).1.listed other ≡ s.listed other)
      ⊎ ((added place s).1.listed other ≡ s.listed other ++ new_id s ∷ [])
unfolding added
listed_or_not place other s = elim (Bool-cases (tag other == tag place)) [
  | inl t ↦ inr (rw t refl)
  | inr f ↦ inl (rw f refl)
]

added-IsCreation :
    (place : Place) (s : File)
    → IsCreation file_document place s (added place s).0 (added place s).1
unfolding added
added-IsCreation place s = record {
  listed = rw ((==_iff (tag place) (tag place)).1 refl) refl;
  grown = λ other. listed_or_not place other s;
  fresh = λ other old m. new_id-ne s other old m;
  same_shared = λ old field ne. refl;
}

same_marks : (s : File) → SameMarks file_document s s
same_marks s = record { same_ids = λ place. refl; same_data = λ id field. refl }

abbrev file_calls : Calls file_document
unfolding added
file_calls = record {
  root = text "0:0";
  string_of = λ value. [];
  create_page = added pages;
  create_collection = λ name. added collections;
  create_variable = λ name collection type. added variables;
  create_text_style = added text_styles;
  create_effect_style = added effect_styles;
  collection_of = λ s id. text "collection";
  default_mode = λ s id. some (text "mode");
  load_font = λ font s. ok tt;
  set_scopes = λ id scopes s. s;
  set_value = λ id mode value s. s;
  set_code_syntax = λ id syntax s. s;
  set_font = λ id font size line_height s. s;
  set_shadow = λ id shadow s. s;
  new_page = added-IsCreation pages;
  new_collection = λ name. added-IsCreation collections;
  new_variable = λ name collection type. added-IsCreation variables;
  new_text_style = added-IsCreation text_styles;
  new_effect_style = added-IsCreation effect_styles;
  scopes_marks = λ id scopes s. same_marks s;
  value_marks = λ id mode value s. same_marks s;
  syntax_marks = λ id syntax s. same_marks s;
  font_marks = λ id font size line_height s. same_marks s;
  shadow_marks = λ id shadow s. same_marks s;
}

abbrev page : ResourceSpec
page = record { key = text "page/design-system"; name = text "00 Design System"; properties = [] }

abbrev style : ResourceSpec
style = record {
  key = text "text/body";
  name = text "Body";
  properties = (text "family", word (text "Inter")) ∷ (text "style", word (text "Regular")) ∷ [];
}

abbrev empty : File
empty = record {
  listed = λ place. [];
  names = λ id. [];
  marks = λ id field. [];
  nodes = λ id. [];
  widths = λ id. 0;
  heights = λ id. 0;
}

abbrev size_of : Option Value → ℕ
size_of (some (number n)) = n
size_of _ = 0

abbrev file_nodes : NodeCalls file_document
unfolding added
file_nodes = record {
  size_of = size_of;
  components_of = λ s page. [];
  frames_of = λ s page. [];
  create_component = added pages;
  create_frame = added pages;
  append_child = λ page id s. s;
  children = λ s id. s.nodes id;
  width = λ s id. s.widths id;
  height = λ s id. s.heights id;
  place = λ s id. (pos 0, pos 0);
  extents = λ s page. [];
  resize = λ id w h s. record s {
    widths = λ other. if text_eq id other then w else s.widths other;
    heights = λ other. if text_eq id other then h else s.heights other;
  };
  set_look = λ id look s. s;
  draw =
      λ id nodes s. record s { nodes = λ other. if text_eq id other then nodes else s.nodes other };
  move = λ id at s. s;
  children-set_name = λ id t s. refl;
  children-resize = λ id w h s. refl;
  children-set_look = λ id look s. refl;
  children-draw = λ id nodes s. rw (text_eq_refl id) refl;
  children-move = λ id at s. refl;
  width-resize = λ id w h s. rw (text_eq_refl id) refl;
  height-resize = λ id w h s. rw (text_eq_refl id) refl;
  width-set_look = λ id look s. refl;
  height-set_look = λ id look s. refl;
}

abbrev upserts : List (Place × ResourceSpec)
upserts = (pages, page) ∷ (text_styles, style) ∷ []

abbrev fonts : File → Result (List FontDescriptor)
fonts s = ok []

abbrev made : Text → Text → ResourceResult
made key id = record { key = key; outcome = created; node_id = some id; message = none }

abbrev first : RunReport
first =
    record_all (create_run_report foundations)
      (made page.key (text "x") ∷ made style.key (text "xx") ∷ [])

abbrev after_first : File
after_first =
    (upsert_all (adapter file_document file_calls fonts) upserts (create_run_report foundations)
      empty).0

upsert_all-again_example :
    SameMarks file_document after_first
      (upsert_all
        (adapter file_document file_calls fonts)
        upserts
        (create_run_report foundations)
        after_first).0
    × Holds
        (λ (again : RunReport). again.counts.created ≡ 0)
        (upsert_all
          (adapter file_document file_calls fonts)
          upserts
          (create_run_report foundations)
          after_first).1
unfolding upsert_all upsert_in upsert_page find_owned text_eq text find_named upsert_text_style
    obtain mark file_calls record_result create_run_report
upsert_all-again_example =
    upsert_all-again file_document file_calls fonts foundations page ((text_styles, style) ∷ [])
      empty after_first first ((λ e. cc (e)), tt) refl (refl, refl)

abbrev screen : ResourceSpec
screen = record {
  key = text "screen/miniapp/home";
  name = text "Home";
  properties =
      (text "width", number 375)
      ∷ (text "height", number 812)
      ∷ (text "sections", words (text "定位" ∷ []))
      ∷ [];
}

abbrev filled : File
filled =
    (fill_screen file_document file_calls file_nodes (text "0:1") screen created (text "1:2")
      empty).0

fill_screen-again_example :
    (fill_screen file_document file_calls file_nodes
        (text "0:1")
        screen
        updated
        (text "1:2")
        filled).0.nodes
      (text "1:2")
    ≡ filled.nodes (text "1:2")
unfolding file_nodes fill_screen text_eq text draw_screen indexed foundation_sections
fill_screen-again_example =
    fill_screen-again file_document file_calls file_nodes (text "0:1") screen created (text "1:2")
      empty (made screen.key (text "1:2"))
      (record { key = screen.key; outcome = updated; node_id = some (text "1:2"); message = none })
      refl refl
