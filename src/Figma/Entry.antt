-- ===== src/Figma/Entry.antt =====
-- tools/figma-plugin/src/code.ts: the plugin answers the messages of its dialogue.
pub mod Replies
use smart_parcel_locker.Prelude.{
  Text, text, Bool, true, false, Option, none, some, List, [], ◌∷◌, Result, ok, err, Failure,
  app_error, plain_error, uri_error, type_error,
}
use smart_parcel_locker.Figma.{
  Stage, foundations, components, mini_app, admin_web, Unknown, PluginMessage, close_plugin,
  run_stage, parse_plugin_message, failed, ResourceResult, RunReport, create_run_report,
  record_result,
}
use smart_parcel_locker.Figma.Requests.{Request}
use smart_parcel_locker.Figma.Stages.{FigmaPort, Ending}
use smart_parcel_locker.Figma.Runs.{run_components, run_mini_app, run_admin_web}
use smart_parcel_locker.Figma.Foundations.{run_foundations}

-- What is posted to the dialogue.
pub data Posted : Type 0 where
  running : Stage → Posted
  result : RunReport → Posted

-- What the handling of a message leaves: the file, what was posted, in order, and whether the plugin
-- was closed.
pub record Reply (S : Type 0) : Type 0 where
  pub file : S
  pub posted : List Posted
  pub closed : Bool

module _ {S : Type 0} (port : FigmaPort S Request) (own_message : Failure → Text) where
  -- `runners`
  unfoldable pub runner : Stage → S → Ending S
  runner foundations file = run_foundations port file
  runner components file = run_components port file
  runner mini_app file = run_mini_app port file
  runner admin_web file = run_admin_web port file

  -- `error instanceof Error ? error.message : String(error)`; the messages of the errors of the
  -- language itself are a parameter.
  message_of : Failure → Text
  message_of (app_error e) = e.message
  message_of (plain_error message) = message
  message_of uri_error = own_message uri_error
  message_of type_error = own_message type_error

  -- The report of an error, whatever the stage
  unfoldable pub error_report : Failure → RunReport
  unfolding message_of
  error_report e = record_result (create_run_report foundations) (record {
    key = text "plugin/run";
    outcome = failed;
    node_id = none;
    message = some (message_of e);
  })

  report_posted : Result RunReport → Posted
  unfolding error_report
  report_posted (ok report) = result report
  report_posted (err e) = result (error_report e)

  handle : Result PluginMessage → S → Reply S
  unfolding report_posted runner error_report
  handle (err e) file = record {
    file = file;
    posted = result (error_report e) ∷ [];
    closed = false;
  }
  handle (ok close_plugin) file = record { file = file; posted = []; closed = true }
  handle (ok (run_stage stage)) file =
      let ending = runner stage file in
      record {
        file = ending.file;
        posted = running stage ∷ report_posted ending.outcome ∷ [];
        closed = false;
      }

  -- `figma.ui.onmessage`
  unfoldable pub on_message : Unknown → S → Reply S
  unfolding handle
  on_message raw file = handle (parse_plugin_message raw) file
