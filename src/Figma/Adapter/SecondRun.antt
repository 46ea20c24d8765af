-- ===== src/Figma/Adapter/SecondRun.antt =====
-- A second run of a stage makes nothing new.
use smart_parcel_locker.Prelude.{
  false, List, [], ◌∷◌, Result, ok, err, Failure, Holds, ap, All, ◌≡◌, ◌≢◌, refl, sym, ◌∙◌, arith,
}
use smart_parcel_locker.Figma.{
  Stage, created, updated, skipped, conflicted, failed, ResourceOutcome, ResourceResult, Counts,
  RunReport, create_run_report, record_result, count_outcome,
}
use smart_parcel_locker.Figma.Report.{is_failure}
use smart_parcel_locker.Figma.Requests.{ResourceSpec}
use smart_parcel_locker.Figma.Stages.{FontDescriptor, continue, upsert_all}
use smart_parcel_locker.Figma.Document.{
  Document, Place, pages, collections, variables, text_styles, effect_styles, SameMarks,
}
use smart_parcel_locker.Figma.Document.Kept.{Keeps, Keeps-refl, Keeps-trans}
use smart_parcel_locker.Figma.Adapter.{Calls}
use smart_parcel_locker.Figma.Adapter.Port.{upsert_in, adapter}
use smart_parcel_locker.Figma.Adapter.Rerun.{
  Found, IsOld, Found-Keeps, Keeps-of_SameMarks, SameMarks-refl, SameMarks-trans, Upserts,
}
use smart_parcel_locker.Figma.Adapter.PageMarks.{upsert_page-Found, upsert_page-Old}
use smart_parcel_locker.Figma.Adapter.OtherMarks.{upsert_in-Upserts}

-- A report counts no conflict and no error.
abbrev pub IsClean : RunReport → Type 0
IsClean report = (report.counts.conflict ≡ 0) × (report.counts.error ≡ 0)

IsClean-before :
    (report : RunReport) (r : ResourceResult)
    → IsClean (record_result report r)
    → IsClean report × (is_failure r ≡ false)
unfolding record_result count_outcome
IsClean-before report r h = by_outcome r.outcome h
  where
    by_outcome :
        (outcome : ResourceOutcome)
        → ((count_outcome outcome report.counts).conflict ≡ 0)
          × ((count_outcome outcome report.counts).error ≡ 0)
        → ((report.counts.conflict ≡ 0) × (report.counts.error ≡ 0))
          × (is_failure (record r { outcome = outcome }) ≡ false)
    by_outcome created h = (h, refl)
    by_outcome updated h = (h, refl)
    by_outcome skipped h = (h, refl)
    by_outcome conflicted (h, k) = absurd (omega (arith, h))
    by_outcome failed (h, k) = absurd (omega (arith, k))

same_created :
    (outcome : ResourceOutcome) (c : Counts)
    → outcome ≢ created
    → (count_outcome outcome c).created ≡ c.created
unfolding count_outcome
same_created created c other = absurd (other refl)
same_created updated c other = refl
same_created skipped c other = refl
same_created conflicted c other = refl
same_created failed c other = refl

err_ok : (e : Failure) (final : RunReport) → ◌≡◌ {A = Result RunReport} (err e) (ok final) → ⊥
err_ok e final h = cc (h)

counted_from :
    (start report : RunReport) (ending : Result RunReport)
    → start.counts.created ≡ report.counts.created
    → Holds (λ (final : RunReport). final.counts.created ≡ start.counts.created) ending
    → Holds (λ (final : RunReport). final.counts.created ≡ report.counts.created) ending
counted_from start report (ok final) h k = k ∙ h
counted_from start report (err e) h k = tt

module _ {S : Type 0} (d : Document S) (c : Calls d)
    (fonts : S → Result (List FontDescriptor)) where
  -- Every key of a list of requests finds its resource.
  abbrev AllFound : List (Place × ResourceSpec) → S → Type 0
  AllFound requests s = All (λ (q : Place × ResourceSpec). Found d q.0 q.1.key s) requests

  -- No request is one of a page.
  abbrev pub NoPages : List (Place × ResourceSpec) → Type 0
  NoPages requests = All (λ (q : Place × ResourceSpec). q.0 ≢ pages) requests

  -- What a run without a failure leaves.
  Left : List (Place × ResourceSpec) → RunReport → S → S → Type 0
  Left requests report s last = Keeps d s last × AllFound requests last × IsClean report

  first_step :
      (place : Place) (spec : ResourceSpec) (rest : List (Place × ResourceSpec))
      (report : RunReport) (s next : S) (answer : Result ResourceResult) (last : S)
      (final : RunReport)
      → Upserts d place spec s (next, answer)
      → ((report : RunReport)
          → upsert_all (adapter d c fonts) rest report next ≡ (last, ok final)
          → Left rest report next last)
      → continue
          (adapter d c fonts)
          next
          answer
          (λ r file. upsert_all (adapter d c fonts) rest (record_result report r) file)
        ≡ (last, ok final)
      → Left ((place, spec) ∷ rest) report s last
  unfolding continue Left
  first_step place spec rest report s next (err e) last final up later h =
      absurd (err_ok e final (ap (λ (p : S × Result RunReport). p.1) h))
  first_step place spec rest report s next (ok r) last final up later h =
      let (keeps, found, clean) = later (record_result report r) h in
      let (before, good) = IsClean-before report r clean in
      (
        Keeps-trans d s next last (up.keeps) keeps,
        (Found-Keeps d place spec.key next last keeps (up.finds r refl good), found),
        before,
      )

  first_run :
      (requests : List (Place × ResourceSpec)) (report : RunReport) (s last : S) (final : RunReport)
      → NoPages requests
      → upsert_all (adapter d c fonts) requests report s ≡ (last, ok final)
      → IsClean final
      → Left requests report s last
  unfolding upsert_all Left
  first_run [] report s last final none h clean =
      let same : s ≡ last = ap (λ (p : S × Result RunReport). p.0) h in
      let same_report : report ≡ final = cc (ap (λ (p : S × Result RunReport). p.1) h) in
      (rw (sym same) (Keeps-refl d s), tt, rw same_report clean)
  first_run ((place, spec) ∷ rest) report s last final (other, none) h clean =
      first_step place spec rest report s _ _ last final (upsert_in-Upserts d c place spec s other)
        (λ report e. first_run rest report _ last final none e clean) h

  -- A run over resources that are found.
  Again : RunReport → S → S × Result RunReport → Type 0
  Again report s ending =
      SameMarks d s ending.0
      × Holds (λ (final : RunReport). final.counts.created ≡ report.counts.created) ending.1

  second_step :
      (rest : List (Place × ResourceSpec)) (report : RunReport) (s next : S)
      (answer : Result ResourceResult)
      → SameMarks d s next
      → IsOld d (next, answer)
      → ((report : RunReport) → Again report next (upsert_all (adapter d c fonts) rest report next))
      → Again report s (
          continue
            (adapter d c fonts)
            next
            answer
            (λ r file. upsert_all (adapter d c fonts) rest (record_result report r) file))
  unfolding continue Again IsOld record_result
  second_step rest report s next (err e) same old later = (same, tt)
  second_step rest report s next (ok r) same old later =
      let (rest_same, counted) = later (record_result report r) in
      (
        SameMarks-trans d s next _ same rest_same,
        counted_from (record_result report r) report _ (same_created r.outcome report.counts old)
            counted,
      )

  upsert_in-Old :
      (place : Place) (spec : ResourceSpec) (s : S)
      → Found d place spec.key s
      → SameMarks d s (upsert_in d c place spec s).0 × IsOld d (upsert_in d c place spec s)
  unfolding upsert_in
  upsert_in-Old pages spec s = upsert_page-Old d c spec s
  upsert_in-Old collections spec s = (upsert_in-Upserts d c collections spec s (λ e. cc (e))).again
  upsert_in-Old variables spec s = (upsert_in-Upserts d c variables spec s (λ e. cc (e))).again
  upsert_in-Old text_styles spec s = (upsert_in-Upserts d c text_styles spec s (λ e. cc (e))).again
  upsert_in-Old effect_styles spec s =
      (upsert_in-Upserts d c effect_styles spec s (λ e. cc (e))).again

  all_kept :
      (requests : List (Place × ResourceSpec)) (s next : S)
      → Keeps d s next
      → AllFound requests s
      → AllFound requests next
  all_kept [] s next keeps found = tt
  all_kept (q ∷ rest) s next keeps (here, found) =
      (Found-Keeps d q.0 q.1.key s next keeps here, all_kept rest s next keeps found)

  second_run :
      (requests : List (Place × ResourceSpec)) (report : RunReport) (s : S)
      → AllFound requests s
      → Again report s (upsert_all (adapter d c fonts) requests report s)
  unfolding upsert_all Again
  second_run [] report s found = (SameMarks-refl d s, refl)
  second_run ((place, spec) ∷ rest) report s (here, found) =
      let (same, old) = upsert_in-Old place spec s here in
      second_step rest report s (upsert_in d c place spec s).0 (upsert_in d c place spec s).1 same
        old
        (λ report.
          second_run rest report (upsert_in d c place spec s).0
            (all_kept rest s _ (Keeps-of_SameMarks d s _ same) found))

  first_page :
      (page : ResourceSpec) (rest : List (Place × ResourceSpec)) (report : RunReport) (s next : S)
      (answer : Result ResourceResult) (last : S) (final : RunReport)
      → ((r : ResourceResult) → answer ≡ ok r → is_failure r ≡ false → Found d pages page.key next)
      → ((report : RunReport)
          → upsert_all (adapter d c fonts) rest report next ≡ (last, ok final)
          → Left rest report next last)
      → continue
          (adapter d c fonts)
          next
          answer
          (λ r file. upsert_all (adapter d c fonts) rest (record_result report r) file)
        ≡ (last, ok final)
      → AllFound ((pages, page) ∷ rest) last
  unfolding continue Left
  first_page page rest report s next (err e) last final finds later h =
      absurd (err_ok e final (ap (λ (p : S × Result RunReport). p.1) h))
  first_page page rest report s next (ok r) last final finds later h =
      let (keeps, found, clean) = later (record_result report r) h in
      let (before, good) = IsClean-before report r clean in
      (Found-Keeps d pages page.key next last keeps (finds r refl good), found)

  after_first :
      (page : ResourceSpec) (rest : List (Place × ResourceSpec)) (report : RunReport) (s last : S)
      (final : RunReport)
      → NoPages rest
      → upsert_all (adapter d c fonts) ((pages, page) ∷ rest) report s ≡ (last, ok final)
      → IsClean final
      → AllFound ((pages, page) ∷ rest) last
  unfolding upsert_all upsert_in
  after_first page rest report s last final none h clean =
      first_page page rest report s (upsert_in d c pages page s).0 (upsert_in d c pages page s).1
        last final (upsert_page-Found d c page s)
        (λ report e. first_run rest report _ last final none e clean) h

  -- A stage draws a page and then collections, variables and styles. Where a run of these requests ended
  -- with a report without conflicts and errors, a second run leaves the lists of resources and their
  -- marks as they are, and its report, if it is not rejected, counts no new resource.
  pub upsert_all-again :
      (stage : Stage) (page : ResourceSpec) (rest : List (Place × ResourceSpec)) (s last : S)
      (final : RunReport)
      → NoPages rest
      → upsert_all (adapter d c fonts) ((pages, page) ∷ rest) (create_run_report stage) s
        ≡ (last, ok final)
      → IsClean final
      → SameMarks d last
          (upsert_all (adapter d c fonts) ((pages, page) ∷ rest) (create_run_report stage) last).0
        × Holds
            (λ (again : RunReport). again.counts.created ≡ 0)
            (upsert_all (adapter d c fonts) ((pages, page) ∷ rest) (create_run_report stage) last).1
  unfolding Again create_run_report
  upsert_all-again stage page rest s last final none h clean =
      second_run ((pages, page) ∷ rest) (create_run_report stage) last
        (after_first page rest (create_run_report stage) s last final none h clean)
