-- ===== src/Figma/Stages/Marker.antt =====
-- When a stage is marked as complete.
use smart_parcel_locker.Prelude.{
  ◌∙◌, Bool, true, false, Bool-cases, List, [], ◌∷◌, All, any, Result, ok, err, Failure, ◌>>=◌, ◌≡◌,
  refl, ◌⊎◌, inl, inr, if◌then◌else◌,
}
use smart_parcel_locker.Figma.{
  Stage, prerequisites_for, success, partial_failure, failure, ResourceResult, RunReport,
  create_run_report, record_result,
}
use smart_parcel_locker.Figma.Report.{
  record_all, record_all-create_run_report, report_of, expected_status, is_failure, is_completed,
}
use smart_parcel_locker.Figma.Stages.{
  Ending, Done, FigmaPort, all_ready, assert_stage_ready, continue, upsert_all, is_success, finish,
  finish_or_fail, begin, run_stage,
}

module _ {S R : Type 0} (port : FigmaPort S R) where
  -- The file has the markers of the stages.
  abbrev pub HasMarkers : List Stage → S → Type 0
  HasMarkers stages file = All (λ (p : Stage). port.has_stage_marker p file ≡ ok true) stages

  ready_then :
      (r : Result Bool) (later : Result Done) (f : Failure)
      → (r >>= λ ready. if ready then later else err f) ≡ ok tt
      → (r ≡ ok true) × (later ≡ ok tt)
  ready_then (err e) later f h = cc (h)
  ready_then (ok true) later f h = (refl, h)
  ready_then (ok false) later f h = cc (h)

  HasMarkers-of_all_ready :
      (stages : List Stage) (file : S) → all_ready port stages file ≡ ok tt → HasMarkers stages file
  unfolding all_ready
  HasMarkers-of_all_ready [] file h = tt
  HasMarkers-of_all_ready (stage ∷ rest) file h =
      let (here, later) =
        ready_then (port.has_stage_marker stage file) (all_ready port rest file) _ h in
      (here, HasMarkers-of_all_ready rest file later)

  -- What the port answers to the requests, one after the other, from the first file to the last.
  abbrev pub Answered : List R → S → List ResourceResult → S → Type 0
  Answered [] file [] last = file ≡ last
  Answered (request ∷ rest) file (result ∷ results) last =
      ((port.upsert request file).1 ≡ ok result)
      × Answered rest (port.upsert request file).0 results last
  Answered _ _ _ _ = ⊥

  -- The results of all requests, as far as none has thrown.
  abbrev Recorded : List R → S → RunReport → S → Result RunReport → Type 0
  Recorded requests file report last (ok final) =
      (results : List ResourceResult) × (final ≡ record_all report results)
      × Answered requests file results last
  Recorded requests file report last (err e) = Unit

  Recorded-cons :
      (request : R) (requests : List R) (file : S) (report : RunReport) (result : ResourceResult)
      (last : S) (final : Result RunReport)
      → (port.upsert request file).1 ≡ ok result
      → Recorded requests (port.upsert request file).0 (record_result report result) last final
      → Recorded (request ∷ requests) file report last final
  Recorded-cons request requests file report result last (ok final) a (results, e, h) =
      (result ∷ results, e, (a, h))
  Recorded-cons request requests file report result last (err e) a h = tt

  abbrev rest_of : List R → RunReport → ResourceResult → S → S × Result RunReport
  rest_of rest report result file = upsert_all port rest (record_result report result) file

  -- One request more, by its answer.
  Recorded-step :
      (request : R) (rest : List R) (file : S) (report : RunReport) (answer : Result ResourceResult)
      → (port.upsert request file).1 ≡ answer
      → ((r : RunReport) (f : S)
          → Recorded rest f r (upsert_all port rest r f).0 (upsert_all port rest r f).1)
      → Recorded
          (request ∷ rest)
          file
          report
          (continue port (port.upsert request file).0 answer (rest_of rest report)).0
          (continue port (port.upsert request file).0 answer (rest_of rest report)).1
  unfolding continue
  Recorded-step request rest file report (err e) a h = tt
  Recorded-step request rest file report (ok result) a h =
      Recorded-cons request rest file report result _ _ a
        (h (record_result report result) (port.upsert request file).0)

  upsert_all-Recorded :
      (requests : List R) (report : RunReport) (file : S)
      → Recorded requests file report
          (upsert_all port requests report file).0
          (upsert_all port requests report file).1
  unfolding upsert_all
  upsert_all-Recorded [] report file = ([], refl, refl)
  upsert_all-Recorded (request ∷ rest) report file =
      Recorded-step request rest file report (port.upsert request file).1 refl
        (upsert_all-Recorded rest)

  -- How a stage ends that was marked on a file: by its report, or as the marking was rejected.
  abbrev pub EndsWith : Stage → RunReport → S → Ending S → Type 0
  EndsWith stage report last ending =
      (ending.file ≡ (port.set_stage_marker stage last).0)
      × ((((port.set_stage_marker stage last).1 ≡ ok tt) × (ending.outcome ≡ ok report))
          ⊎ ((e : Failure) × ((port.set_stage_marker stage last).1 ≡ err e)
              × (ending.outcome ≡ err e)))

  -- What is said of a stage that was marked.
  abbrev pub IsComplete : Stage → List R → S → Ending S → Type 0
  IsComplete stage requests file ending =
      (results : List ResourceResult) × (last : S) × Answered requests file results last
      × (any is_failure results ≡ false)
      × EndsWith stage (report_of stage results) last ending

  answered :
      (r : Result Done) (report : RunReport)
      → ((r ≡ ok tt) × ((r >>= λ done. ok report) ≡ ok report))
        ⊎ ((e : Failure) × (r ≡ err e) × ((r >>= λ done. ok report) ≡ err e))
  answered (ok done) report = inl (refl, refl)
  answered (err e) report = inr (e, refl, refl)

  no_failure :
      (f c : Bool)
      → is_success (if f then (if c then partial_failure else failure) else success) ≡ true
      → f ≡ false
  no_failure true true h = cc (h)
  no_failure true false h = cc (h)
  no_failure false c h = refl

  finish-IsComplete :
      (stage : Stage) (requests : List R) (results : List ResourceResult) (file last : S)
      → Answered requests file results last
      → (finish port stage (report_of stage results) last).marked ≡ true
      → IsComplete stage requests file (finish port stage (report_of stage results) last)
  unfolding finish
  finish-IsComplete stage requests results file last n h =
      elim (Bool-cases (is_success (expected_status results))) [
        | inl succeeded ↦ rw succeeded (
          results,
          last,
          n,
          no_failure (any is_failure results) (any is_completed results) succeeded,
          (refl, answered (port.set_stage_marker stage last).1 (report_of stage results)),
        )
        | inr not_yet ↦ cc (rw not_yet at h)
      ]

  Recorded-IsComplete :
      (stage : Stage) (requests : List R) (file last : S) (recorded : Result RunReport)
      → Recorded requests file (create_run_report stage) last recorded
      → (finish_or_fail port stage (last, recorded)).marked ≡ true
      → IsComplete stage requests file (finish_or_fail port stage (last, recorded))
  unfolding finish_or_fail
  Recorded-IsComplete stage requests file last (err e) h marked = cc (marked)
  Recorded-IsComplete stage requests file last (ok final) (results, e, n) marked =
      let report : final ≡ report_of stage results =
        e ∙ record_all-create_run_report stage results in
      rw report (finish-IsComplete stage requests results file last n (rw report at marked))

  pub begin-IsComplete :
      (stage : Stage) (requests : List R) (file : S) (ready : Result Done)
      → (begin port stage requests file ready).marked ≡ true
      → (ready ≡ ok tt) × IsComplete stage requests file (begin port stage requests file ready)
  unfolding begin
  begin-IsComplete stage requests file (err e) marked = cc (marked)
  begin-IsComplete stage requests file (ok done) marked = (
    refl,
    Recorded-IsComplete stage requests file
        (upsert_all port requests (create_run_report stage) file).0
        (upsert_all port requests (create_run_report stage) file).1
        (upsert_all-Recorded requests (create_run_report stage) file) marked,
  )

  -- A stage is marked as complete only where the file had the markers of the stages before it, the
  -- port answered every request in turn, and no answer is a conflict or an error; the marker is set
  -- on the file that the last request left, and the outcome is the report of exactly these answers,
  -- or the error with which the port rejected the marker.
  pub run_stage-marked :
      (stage : Stage) (requests : List R) (file : S)
      → (run_stage port stage requests file).marked ≡ true
      → HasMarkers (prerequisites_for stage) file
        × IsComplete stage requests file (run_stage port stage requests file)
  unfolding run_stage assert_stage_ready
  run_stage-marked stage requests file marked =
      let (ready, complete) =
        begin-IsComplete stage requests file (all_ready port (prerequisites_for stage) file)
          marked in
      (HasMarkers-of_all_ready (prerequisites_for stage) file ready, complete)
