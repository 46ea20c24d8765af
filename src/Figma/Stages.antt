-- ===== src/Figma/Stages.antt =====
-- tools/figma-plugin/src/stages: a stage draws its resources over the port, one after the other. The
-- port is a parameter; `R` is a request of one resource, and the requests of a stage are an argument.
pub mod Marker
use smart_parcel_locker.Prelude.{
  ◌++◌, ◌∙◌, Text, text, Bool, true, false, Bool-cases, Option, none, some, List, [], ◌∷◌, All, any,
  length, Result, ok, err, plain_error, ◌>>=◌, ◌≡◌, ◌≢◌, refl, sym, ap, inl, inr, if◌then◌else◌,
  arith,
}
use smart_parcel_locker.Figma.{
  Stage, foundations, components, mini_app, admin_web, prerequisites_for, RunStatus, success,
  partial_failure, failure, ResourceResult, RunReport, create_run_report, record_result,
}
use smart_parcel_locker.Figma.Report.{
  record_all, record_all-create_run_report, report_of, expected_status, is_failure,
}

-- What a promise of `void` is fulfilled with.
abbrev pub Done : Type 0
Done = Unit

pub record FontDescriptor : Type 0 where
  pub family : Text
  pub style : Text

-- `FigmaPort`: what the stages call. A call that fails throws, and may have changed the file.
pub record FigmaPort (S R : Type 0) : Type 0 where
  pub list_available_fonts : S → Result (List FontDescriptor)
  pub has_stage_marker : Stage → S → Result Bool
  pub set_stage_marker : Stage → S → S × Result Done
  pub upsert : R → S → S × Result ResourceResult

-- `STAGE_LABELS`
unfoldable pub stage_label : Stage → Text
stage_label foundations = text "Foundations"
stage_label components = text "Components"
stage_label mini_app = text "Mini App"
stage_label admin_web = text "Admin Web"

abbrev pub is_success : RunStatus → Bool
is_success success = true
is_success _ = false

-- How a stage ends: the file, whether `setStageMarker` was called, and the report or an error.
pub record Ending (S : Type 0) : Type 0 where
  pub file : S
  pub marked : Bool
  pub outcome : Result RunReport

module _ {S R : Type 0} (port : FigmaPort S R) where
  unfoldable pub all_ready : List Stage → S → Result Done
  unfolding stage_label
  all_ready [] file = ok tt
  all_ready (stage ∷ rest) file =
      let later = all_ready rest file in
      port.has_stage_marker stage file >>= λ ready.
      if ready
      then later
      else err (plain_error (text "Run " ++ (stage_label stage ++ text " first")))

  -- `assertStageReady`
  unfoldable pub assert_stage_ready : Stage → S → Result Done
  unfolding all_ready
  assert_stage_ready stage file = all_ready (prerequisites_for stage) file

  -- The answer to a request is recorded, or ends the stage.
  unfoldable pub continue :
      S → Result ResourceResult → (ResourceResult → S → S × Result RunReport) → S × Result RunReport
  continue next (err e) rest = (next, err e)
  continue next (ok result) rest = rest result next

  -- `report = recordResult(report, await port.upsert…(…))`, for each request
  unfoldable pub upsert_all : List R → RunReport → S → S × Result RunReport
  unfolding continue
  upsert_all [] report file = (file, ok report)
  upsert_all (request ∷ rest) report file =
      let (next, answer) = port.upsert request file in
      continue next answer (λ result file'. upsert_all rest (record_result report result) file')

  -- `if (report.status === "success") await port.setStageMarker(stage); return report;`
  finish : Stage → RunReport → S → Ending S
  finish stage report file =
      let (next, answer) = port.set_stage_marker stage file in
      if is_success report.status
      then record { file = next; marked = true; outcome = answer >>= (λ done. ok report) }
      else record { file = file; marked = false; outcome = ok report }

  finish_or_fail : Stage → S × Result RunReport → Ending S
  unfolding finish
  finish_or_fail stage (file, ok report) = finish stage report file
  finish_or_fail stage (file, err e) = record { file = file; marked = false; outcome = err e }

  -- The requests of a stage, if it may run.
  unfoldable pub begin : Stage → List R → S → Result Done → Ending S
  unfolding finish_or_fail upsert_all
  begin stage requests file (ok ready) =
      finish_or_fail stage (upsert_all requests (create_run_report stage) file)
  begin stage requests file (err e) = record { file = file; marked = false; outcome = err e }

  -- `runComponents`, `runMiniApp` and `runAdminWeb`
  unfoldable pub run_stage : Stage → List R → S → Ending S
  unfolding begin assert_stage_ready
  run_stage stage requests file = begin stage requests file (assert_stage_ready stage file)
