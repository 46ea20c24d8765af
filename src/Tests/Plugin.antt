-- ===== src/Tests/Plugin.antt =====
-- The plugin for the design at concrete inputs.
use smart_parcel_locker.Prelude.{
  any, Text, text, text_eq, truthy, not, ◌++◌, true, none, List, [], ◌∷◌, ok, false, ◌≡◌, refl,
  Bool,
}
use smart_parcel_locker.Figma.{
  components, prerequisites_for, created, conflicted, ResourceResult, create_run_report,
  record_result, FoundResource, plugin_owner,
}
use smart_parcel_locker.Figma.Report.{record_all, report_of, record_all-create_run_report}
use smart_parcel_locker.Figma.Catalog.{assert_unique_keys, all_keys, duplicates, component_keys}
use smart_parcel_locker.Figma.Requests.{Request, component_requests, display_name}
use smart_parcel_locker.Figma.ScreenRequests.{mini_app_requests, admin_requests}
use smart_parcel_locker.Figma.Stages
use smart_parcel_locker.Figma.Stages.{FigmaPort}
use smart_parcel_locker.Figma.Stages.Marker.{run_stage-marked, HasMarkers, IsComplete}

abbrev drawn : Text → ResourceResult
drawn key = record { key = key; outcome = created; node_id = none; message = none }

abbrev refused : Text → ResourceResult
refused key = record { key = key; outcome = conflicted; node_id = none; message = none }

abbrev results : List ResourceResult
results = drawn (text "page/design-system") ∷ refused (text "component/button") ∷ []

record_all-create_run_report_example :
    record_all (create_run_report components) results ≡ report_of components results
record_all-create_run_report_example = record_all-create_run_report components results

-- A file with all markers, in which every request creates its resource.
abbrev port : FigmaPort Bool Text
port = record {
  list_available_fonts = λ file. ok [];
  has_stage_marker = λ stage file. ok file;
  set_stage_marker = λ stage file. (file, ok tt);
  upsert = λ request file. (file, ok (drawn request));
}

abbrev requests : List Text
requests = text "page/design-system" ∷ text "component/button" ∷ []

run_stage-marked_example :
    HasMarkers port (prerequisites_for components) true
    × IsComplete port components requests true (Stages.run_stage port components requests true)
unfolding Stages.run_stage record_result create_run_report
run_stage-marked_example = run_stage-marked port components requests true refl

-- Without the markers, nothing is drawn.
not_ready : (Stages.run_stage port components requests false).marked ≡ false
unfolding Stages.run_stage
not_ready = refl

abbrev own : FoundResource
own = record { owner = plugin_owner; key = text "component/button"; name_matches = true }

keys_are_unique : assert_unique_keys ≡ ok []
unfolding assert_unique_keys all_keys text text_eq
keys_are_unique = refl

every_component_named : any (λ key. not (truthy (display_name key))) component_keys ≡ false
unfolding display_name text text_eq
every_component_named = refl

request_keys : List Request → List Text
request_keys [] = []
request_keys (Request.upsert_page r ∷ rest) = r.key ∷ request_keys rest
request_keys (Request.upsert_variable_collection r ∷ rest) = r.key ∷ request_keys rest
request_keys (Request.upsert_variable r ∷ rest) = r.key ∷ request_keys rest
request_keys (Request.upsert_text_style r ∷ rest) = r.key ∷ request_keys rest
request_keys (Request.upsert_effect_style r ∷ rest) = r.key ∷ request_keys rest
request_keys (Request.upsert_component_family r ∷ rest) = r.key ∷ request_keys rest
request_keys (Request.upsert_screen r ∷ rest) = r.key ∷ request_keys rest

-- No two resources of the three stages share a key.
requests_are_unique :
    duplicates [] (request_keys (component_requests ++ (mini_app_requests ++ admin_requests))) ≡ []
unfolding request_keys component_requests mini_app_requests admin_requests duplicates text text_eq
requests_are_unique = refl
