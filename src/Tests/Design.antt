-- ===== src/Tests/Design.antt =====
-- The tokens, the drawings and the entry of the plugin at concrete inputs.
use smart_parcel_locker.Prelude.{
  err, if◌then◌else◌, Result, Text, text, text_eq, Bool, true, false, none, some, List, [], ◌∷◌, ok,
  Failure, plain_error, All, ◌≡◌, ◌↔◌, refl, Memᴰ,
}
use smart_parcel_locker.Figma.{
  foundations, components, created, ResourceResult, Unknown, object, record_result,
  create_run_report, parse_plugin_message,
}
use smart_parcel_locker.Figma.Requests.{Request}
use smart_parcel_locker.Figma.Stages.{FigmaPort, FontDescriptor}
use smart_parcel_locker.Figma.Stages.Marker.{IsComplete}
use smart_parcel_locker.Figma.Tokens.{color_tokens, dimension_tokens, validate}
use smart_parcel_locker.Figma.Tokens.Valid.{WellFormed, validate-WellFormed}
use smart_parcel_locker.Figma.Foundations.{
  run_foundations, foundation_requests, required_fonts, check_fonts, text_styles, effect_styles,
}
use smart_parcel_locker.Figma.Foundations.Marker.{run_foundations-marked}
use smart_parcel_locker.Figma.Drawing.{Node, node, nil, other_node, without}
use smart_parcel_locker.Figma.Stages.{Done}
use smart_parcel_locker.Figma.Drawing.Screen.{draw_screen}
use smart_parcel_locker.Figma.Drawing.Twice.{draw_screen-others, is_generated}
use smart_parcel_locker.Figma.Entry.{running, result, on_message}
use smart_parcel_locker.Figma.Entry.Replies.{
  IsAnswered, on_message-IsAnswered, on_message-not_ready, rejection,
}

validate-WellFormed_example :
    (validate color_tokens dimension_tokens ≡ []) ↔ WellFormed color_tokens dimension_tokens
validate-WellFormed_example = validate-WellFormed color_tokens dimension_tokens

abbrev drawn : ResourceResult
drawn = record {
  key = text "page/design-system";
  outcome = created;
  node_id = none;
  message = none;
}

-- A file that has all fonts and draws every request; it is true as soon as something was drawn.
abbrev port : FigmaPort Bool Request
port = record {
  list_available_fonts = λ file. ok required_fonts;
  has_stage_marker = λ stage file. ok file;
  set_stage_marker = λ stage file. (file, ok tt);
  upsert = λ request file. (true, ok drawn);
}

run_foundations-marked_example :
    ((fonts : List FontDescriptor) × (port.list_available_fonts false ≡ ok fonts)
      × All (λ (font : FontDescriptor). Memᴰ font fonts) required_fonts)
    × IsComplete port foundations foundation_requests false (run_foundations port false)
unfolding run_foundations check_fonts required_fonts text_eq text foundation_requests color_tokens
    dimension_tokens text_styles effect_styles record_result create_run_report
run_foundations-marked_example = run_foundations-marked port false refl

-- A node of the user.
abbrev note : Node
note = node other_node (some (text "Note")) [] nil

abbrev sections : List Text
sections = text "定位" ∷ text "推荐网点" ∷ []

-- A file without the font of the sections.
abbrev no_regular : Text → Result Done
no_regular style =
    if text_eq style (text "Regular") then err (plain_error (text "no font")) else ok tt

draw_screen-others_example :
    without is_generated
      (draw_screen no_regular 375 812 (text "首页") sections (text "继续") (note ∷ [])).0
    ≡ without is_generated (note ∷ [])
draw_screen-others_example =
    draw_screen-others 375 812 no_regular (text "首页") (text "继续") sections (note ∷ [])

abbrev message : Unknown
message = object (some (text "run-stage")) (some (text "components")) true

abbrev no_message : Failure → Text
no_message e = []

on_message-IsAnswered_example :
    IsAnswered
      (on_message port no_message message true).posted
      (on_message port no_message message true).closed
on_message-IsAnswered_example = on_message-IsAnswered port no_message message true

on_message-not_ready_example : on_message port no_message message false ≡ record {
  file = false;
  posted =
      running components ∷ result (rejection port no_message (text "Run Foundations first")) ∷ [];
  closed = false;
}
unfolding parse_plugin_message text_eq text
on_message-not_ready_example =
    on_message-not_ready port no_message components message false refl (λ e. cc (e)) refl
