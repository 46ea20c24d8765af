-- ===== src/Figma/Report.antt =====
-- The report of a run, against the list of its results.
use smart_parcel_locker.Prelude.{
  ℕ, ◌+◌, Bool, true, false, ◌||◌, ◌==◌, any, not, List, [], ◌∷◌, ◌++◌, ◌≡◌, refl, sym, ap, ◌∙◌,
  if◌then◌else◌, arith,
}
use mathlib.Core.List.{append_assoc, append-nil}
use smart_parcel_locker.Figma.{
  Stage, ResourceOutcome, created, updated, skipped, conflicted, failed, RunStatus, success,
  partial_failure, failure, ResourceResult, Counts, RunReport, create_run_report, count_outcome,
  status_of, record_result,
}

-- `results.reduce(recordResult, report)`
abbrev pub record_all : RunReport → List ResourceResult → RunReport
record_all report [] = report
record_all report (r ∷ rest) = record_all (record_result report r) rest

abbrev pub same : ResourceOutcome → ResourceOutcome → Bool
same created created = true
same updated updated = true
same skipped skipped = true
same conflicted conflicted = true
same failed failed = true
same _ _ = false

abbrev pub bit : ResourceOutcome → ResourceOutcome → ℕ
bit o outcome = if same o outcome then 1 else 0

-- How many results have the outcome.
abbrev pub occurrences : ResourceOutcome → List ResourceResult → ℕ
occurrences o [] = 0
occurrences o (r ∷ rest) = bit o r.outcome + occurrences o rest

abbrev pub is_failure : ResourceResult → Bool
is_failure r = same conflicted r.outcome || same failed r.outcome

abbrev pub is_completed : ResourceResult → Bool
is_completed r = same created r.outcome || same updated r.outcome || same skipped r.outcome

-- Without a failure a run has succeeded; with failures only, it has failed.
abbrev pub expected_status : List ResourceResult → RunStatus
expected_status results =
    if any is_failure results
    then (if any is_completed results then partial_failure else failure)
    else success

abbrev pub expected_counts : List ResourceResult → Counts
expected_counts results = record {
  created = occurrences created results;
  updated = occurrences updated results;
  skipped = occurrences skipped results;
  conflict = occurrences conflicted results;
  error = occurrences failed results;
}

-- The report that the results call for.
abbrev pub report_of : Stage → List ResourceResult → RunReport
report_of stage results = record {
  stage = stage;
  status = expected_status results;
  counts = expected_counts results;
  results = results;
}

occurrences-append :
    (o : ResourceOutcome) (xs ys : List ResourceResult)
    → occurrences o (xs ++ ys) ≡ occurrences o xs + occurrences o ys
occurrences-append o [] ys = omega arith
occurrences-append o (x ∷ xs) ys = omega (arith, occurrences-append o xs ys)

counts_eq :
    {a b c d e a' b' c' d' e' : ℕ}
    → a ≡ a'
    → b ≡ b'
    → c ≡ c'
    → d ≡ d'
    → e ≡ e'
    → Path Counts
        (record { created = a; updated = b; skipped = c; conflict = d; error = e })
        (record { created = a'; updated = b'; skipped = c'; conflict = d'; error = e' })
counts_eq p q r t u = rw (p, q, r, t, u)

count_outcome_bits :
    (o : ResourceOutcome) (c : Counts)
    → count_outcome o c ≡ record {
      created = c.created + bit created o;
      updated = c.updated + bit updated o;
      skipped = c.skipped + bit skipped o;
      conflict = c.conflict + bit conflicted o;
      error = c.error + bit failed o;
    }
unfolding count_outcome
count_outcome_bits created c =
    counts_eq refl (omega arith) (omega arith) (omega arith) (omega arith)
count_outcome_bits updated c =
    counts_eq (omega arith) refl (omega arith) (omega arith) (omega arith)
count_outcome_bits skipped c =
    counts_eq (omega arith) (omega arith) refl (omega arith) (omega arith)
count_outcome_bits conflicted c =
    counts_eq (omega arith) (omega arith) (omega arith) refl (omega arith)
count_outcome_bits failed c = counts_eq (omega arith) (omega arith) (omega arith) (omega arith) refl

occurrences-snoc :
    (o : ResourceOutcome) (xs : List ResourceResult) (r : ResourceResult)
    → occurrences o xs + bit o r.outcome ≡ occurrences o (xs ++ r ∷ [])
occurrences-snoc o xs r = omega (arith, occurrences-append o xs (r ∷ []))

count_outcome-snoc :
    (r : ResourceResult) (xs : List ResourceResult)
    → count_outcome r.outcome (expected_counts xs) ≡ expected_counts (xs ++ r ∷ [])
count_outcome-snoc r xs =
    count_outcome_bits r.outcome (expected_counts xs)
    ∙ counts_eq (occurrences-snoc created xs r) (occurrences-snoc updated xs r)
        (occurrences-snoc skipped xs r) (occurrences-snoc conflicted xs r)
        (occurrences-snoc failed xs r)

-- One result, by its outcome: it is a failure or completed.
one_failure :
    (o : ResourceOutcome)
    → bit conflicted o + bit failed o ≡ (if same conflicted o || same failed o then 1 else 0)
one_failure o = ground arith

one_completed :
    (o : ResourceOutcome)
    → bit created o + bit updated o + bit skipped o
      ≡ (if same created o || same updated o || same skipped o then 1 else 0)
one_completed o = ground arith

failures_none :
    (results : List ResourceResult)
    → (occurrences conflicted results + occurrences failed results == 0)
      ≡ not (any is_failure results)
failures_none [] = refl
failures_none (r ∷ rest) = ground (arith, failures_none rest, one_failure r.outcome)

completed_none :
    (results : List ResourceResult)
    → (occurrences created results + occurrences updated results + occurrences skipped results == 0)
      ≡ not (any is_completed results)
completed_none [] = refl
completed_none (r ∷ rest) = ground (arith, completed_none rest, one_completed r.outcome)

status_of-expected_counts :
    (results : List ResourceResult) → status_of (expected_counts results) ≡ expected_status results
unfolding status_of
status_of-expected_counts results =
    rw (failures_none results, completed_none results)
      (by_tests (any is_failure results) (any is_completed results))
  where
    by_tests :
        (f c : Bool)
        → (if not f then success else if not c then failure else partial_failure)
          ≡ (if f then (if c then partial_failure else failure) else success)
    by_tests true true = refl
    by_tests true false = refl
    by_tests false c = refl

record_result-report_of :
    (stage : Stage) (xs : List ResourceResult) (r : ResourceResult)
    → record_result (report_of stage xs) r ≡ report_of stage (xs ++ r ∷ [])
unfolding record_result
record_result-report_of stage xs r =
    rw (count_outcome-snoc r xs, status_of-expected_counts (xs ++ r ∷ []))

record_all-report_of :
    (stage : Stage) (xs ys : List ResourceResult)
    → record_all (report_of stage xs) ys ≡ report_of stage (xs ++ ys)
record_all-report_of stage xs [] = ap (report_of stage) (sym (append-nil xs))
record_all-report_of stage xs (r ∷ ys) =
    ap (λ report. record_all report ys) (record_result-report_of stage xs r)
    ∙ record_all-report_of stage (xs ++ r ∷ []) ys
    ∙ ap (report_of stage) (append_assoc xs (r ∷ []) ys)

-- The report that is kept while the results come in is the one that their list calls for: the
-- results in their order, how many have each outcome, and a status that is a success without any
-- conflict or error, a failure with these only, and a partial failure otherwise.
pub record_all-create_run_report :
    (stage : Stage) (results : List ResourceResult)
    → record_all (create_run_report stage) results ≡ report_of stage results
unfolding create_run_report
record_all-create_run_report stage results = record_all-report_of stage [] results
