-- ===== src/Figma/Messages.antt =====
-- What the plugin takes for a message.
use smart_parcel_locker.Prelude.{
  Text, text, text_eq, text_eq_iff, Bool, true, false, Bool-cases, Option, none, some, ok, ◌≡◌,
  refl, ◌↔◌, inl, inr, if◌then◌else◌, arith, ◌∙◌, sym, ap,
}
use smart_parcel_locker.Figma.{
  Stage, foundations, components, mini_app, admin_web, stage_text, object, run_stage, stage_of,
  is_text, stage_in, confirmed_stage, parse_plugin_message,
}

stage_of-stage_text : (stage : Stage) → stage_of (stage_text stage) ≡ some stage
unfolding stage_of stage_text text text_eq
stage_of-stage_text foundations = refl
stage_of-stage_text components = refl
stage_of-stage_text mini_app = refl
stage_of-stage_text admin_web = refl

-- A chain of tests: its first name, or a later one.
first_or_later :
    (t name : Text) (stage found : Stage) (later : Option Stage)
    → stage_text stage ≡ name
    → (later ≡ some found → t ≡ stage_text found)
    → (if text_eq t name then some stage else later) ≡ some found
    → t ≡ stage_text found
first_or_later t name stage found later named rest h = elim (Bool-cases (text_eq t name)) [
  | inl same ↦
      let here : stage ≡ found = ground (arith, same) in
      (text_eq_iff t name).0 same ∙ sym named ∙ ap stage_text here
  | inr other ↦ rest (rw other at h)
]

stage_text-stage_of : (t : Text) (stage : Stage) → stage_of t ≡ some stage → t ≡ stage_text stage
unfolding stage_of stage_text
stage_text-stage_of t stage = first_or_later t (text "foundations") foundations stage _ refl (
    first_or_later t (text "components") components stage _ refl (
      first_or_later t (text "mini-app") mini_app stage _ refl
        (first_or_later t (text "admin-web") admin_web stage none refl (λ h. cc (h)))))

run_of_confirmed :
    (o : Option Stage) (confirmed : Bool) (stage : Stage)
    → confirmed_stage o confirmed ≡ ok (run_stage stage)
    → (o ≡ some stage) × (confirmed ≡ true)
unfolding confirmed_stage
run_of_confirmed none confirmed stage h = cc (h)
run_of_confirmed (some found) true stage h = (ground arith, refl)
run_of_confirmed (some found) false stage h = cc (h)

some_of_is_text : (o : Option Text) (t : Text) → is_text o t ≡ true → o ≡ some t
some_of_is_text none t h = cc (h)
some_of_is_text (some u) t h = ap (λ x. some x) ((text_eq_iff u t).0 h)

some_of_stage_in :
    (o : Option Text) (stage : Stage) → stage_in o ≡ some stage → o ≡ some (stage_text stage)
some_of_stage_in none stage h = cc (h)
some_of_stage_in (some t) stage h = ap (λ x. some x) (stage_text-stage_of t stage h)

-- The stage that a message asks for is run exactly if the message is an object of the type
-- `run-stage` that names the stage and is confirmed.
pub parse_plugin_message-run_stage :
    (type stage : Option Text) (confirmed : Bool) (s : Stage)
    → (parse_plugin_message (object type stage confirmed) ≡ ok (run_stage s))
      ↔ ((type ≡ some (text "run-stage")) × (stage ≡ some (stage_text s)) × (confirmed ≡ true))
unfolding parse_plugin_message confirmed_stage text text_eq
parse_plugin_message-run_stage type stage confirmed s = (
  λ h. elim (Bool-cases (is_text type (text "close-plugin"))) [
    | inl closing ↦ cc (rw closing at h)
    | inr open_type ↦ elim (Bool-cases (is_text type (text "run-stage"))) [
      | inl running ↦
          let (named, agreed) =
            run_of_confirmed (stage_in stage) confirmed s (rw (open_type, running) at h) in
          (some_of_is_text type (text "run-stage") running, some_of_stage_in stage s named, agreed)
      | inr other ↦ cc (rw (open_type, other) at h)
    ]
  ],
  λ (typed, named, agreed). rw (typed, named, agreed) (rw (stage_of-stage_text s) refl),
)
