-- ===== src/Figma/Entry/Replies.antt =====
-- What the dialogue is told.
use smart_parcel_locker.Prelude.{
  Text, text, Bool, true, false, none, some, plain_error, ◌≢◌, List, [], ◌∷◌, Result, ok, err,
  Failure, ◌≡◌, refl,
}
use smart_parcel_locker.Figma.{
  Stage, foundations, components, mini_app, admin_web, failed, Unknown, PluginMessage, close_plugin,
  run_stage, parse_plugin_message, RunReport, failure, create_run_report, record_result,
  count_outcome, status_of,
}
use smart_parcel_locker.Figma.Requests.{Request}
use smart_parcel_locker.Figma.Stages
use smart_parcel_locker.Figma.Stages.{FigmaPort, all_ready, assert_stage_ready, begin, stage_label}
use smart_parcel_locker.Figma.Runs.{run_components, run_mini_app, run_admin_web}
use smart_parcel_locker.Figma.Entry.{
  Posted, running, result, runner, error_report, report_posted, handle, on_message,
}

-- A closed plugin posts nothing; otherwise the last of what is posted is the one report, and before it
-- stands at most that a stage is running.
abbrev pub IsAnswered : List Posted → Bool → Type 0
IsAnswered [] closed = closed ≡ true
IsAnswered (result report ∷ []) closed = closed ≡ false
IsAnswered (running stage ∷ result report ∷ []) closed = closed ≡ false
IsAnswered _ closed = ⊥

module _ {S : Type 0} (port : FigmaPort S Request) (own_message : Failure → Text) where
  posted_one :
      (outcome : Result RunReport)
      → (report : RunReport) × (report_posted port own_message outcome ≡ result report)
  unfolding report_posted
  posted_one (ok report) = (report, refl)
  posted_one (err e) = (error_report port own_message e, refl)

  handle-IsAnswered :
      (message : Result PluginMessage) (file : S)
      → IsAnswered
          (handle port own_message message file).posted
          (handle port own_message message file).closed
  unfolding handle
  handle-IsAnswered (err e) file = refl
  handle-IsAnswered (ok close_plugin) file = refl
  handle-IsAnswered (ok (run_stage stage)) file =
      let (report, posted) = posted_one (runner port own_message stage file).outcome in
      rw posted refl

  -- Every message is answered once: the plugin is closed and nothing is posted, or it stays open and one
  -- report is posted last, with at most the start of a stage before it.
  pub on_message-IsAnswered :
      (raw : Unknown) (file : S)
      → IsAnswered
          (on_message port own_message raw file).posted
          (on_message port own_message raw file).closed
  unfolding on_message
  on_message-IsAnswered raw file = handle-IsAnswered (parse_plugin_message raw) file

  -- What the dialogue is told where a stage was rejected with this text: a failure under the stage of
  -- the tokens.
  abbrev pub rejection : Text → RunReport
  rejection message = record {
    stage = foundations;
    status = failure;
    counts = record { created = 0; updated = 0; skipped = 0; conflict = 0; error = 1 };
    results =
        record { key = text "plugin/run"; outcome = failed; node_id = none; message = some message }
        ∷ [];
  }

  not_ready :
      (stage : Stage) (file : S)
      → stage ≢ foundations
      → port.has_stage_marker foundations file ≡ ok false
      → runner port own_message stage file ≡ record {
        file = file;
        marked = false;
        outcome = err (plain_error (text "Run Foundations first"));
      }
  unfolding runner run_components run_mini_app run_admin_web Stages.run_stage assert_stage_ready
      all_ready begin stage_label text
  not_ready foundations file h unmarked = absurd (h refl)
  not_ready components file h unmarked = rw unmarked refl
  not_ready mini_app file h unmarked = rw unmarked refl
  not_ready admin_web file h unmarked = rw unmarked refl

  -- Any other stage that is asked for on a file without the marker of the tokens leaves the file as
  -- it is, and the dialogue is told that the stage runs and then of one failure, with the text that
  -- asks for the tokens, under the stage of the tokens.
  pub on_message-not_ready :
      (stage : Stage) (raw : Unknown) (file : S)
      → parse_plugin_message raw ≡ ok (run_stage stage)
      → stage ≢ foundations
      → port.has_stage_marker foundations file ≡ ok false
      → on_message port own_message raw file ≡ record {
        file = file;
        posted = running stage ∷ result (rejection (text "Run Foundations first")) ∷ [];
        closed = false;
      }
  unfolding on_message handle report_posted error_report record_result count_outcome status_of
      create_run_report
  on_message-not_ready stage raw file parsed other unmarked =
      rw (parsed, not_ready stage file other unmarked) refl
