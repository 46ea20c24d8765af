-- ===== src/SiteDetail/Laws.antt =====
-- What the page of a site shows is one answer of the server.
use smart_parcel_locker.Prelude.{
  ◌<◌, Text, truthy, false, Bool-cases, Option, none, some, List, [], ◌∷◌, Result, ok, err,
  AppErrorCode, device_offline, network_failure, not_found, permission_denied, unknown, ◌≡◌, ◌≢◌,
  ◌∙◌, ltb→lt, refl, ◌⊎◌, inl, inr, if◌then◌else◌, ltb,
}
use smart_parcel_locker.SiteClient.{SiteDetailDto, CellDto}
use smart_parcel_locker.OrderHook.{to_app_error}
use smart_parcel_locker.Components.{when_truthy}
use smart_parcel_locker.SiteDetail.{
  SiteDetailPage, DetailLoadState, loading, success, failed_network, failed_offline, Event,
  load_settled, tap_retry, load, is_zero, failed_state, settle_load, retry, step, start, run,
}

-- One of the events, at a time when a call waits, is the answer with this site and these cells.
abbrev pub AnsweredBy : SiteDetailPage → List Event → SiteDetailDto → List CellDto → Type 0
AnsweredBy s [] site cells = ⊥
AnsweredBy s (e ∷ es) site cells =
    ((e ≡ load_settled (ok (site, cells))) × (0 < s.pending)) ⊎ AnsweredBy (step s e) es site cells

-- The page shows what the event has brought.
abbrev Brings : SiteDetailPage → Event → SiteDetailPage → Type 0
Brings s e next =
    (site : SiteDetailDto) × (next.site ≡ some site)
    × (is_zero site.online_device_count ≡ false)
    × (e ≡ load_settled (ok (site, next.cells)))
    × (0 < s.pending)

-- The page shows what it showed before.
abbrev Same : SiteDetailPage → SiteDetailPage → Type 0
Same s next = (s.load_state ≡ success) × (next.site ≡ s.site) × (next.cells ≡ s.cells)

load-Same : (s : SiteDetailPage) → (load s).load_state ≡ success → Same s (load s)
unfolding load
load-Same s h = elim (Bool-cases (truthy s.site_id)) [
  | inl named ↦ cc (rw named at h)
  | inr nameless ↦ rw nameless (rw nameless at h, refl, refl)
]

retry-Same :
    (state : DetailLoadState) (s : SiteDetailPage)
    → (retry state s).load_state ≡ success
    → Same s (retry state s)
unfolding retry
retry-Same (failed_network t) s h = load-Same s h
retry-Same (failed_offline t) s h = (h, refl, refl)
retry-Same loading s h = (h, refl, refl)
retry-Same success s h = (h, refl, refl)

failed_state-ne : (code : AppErrorCode) (t : Option Text) → failed_state code t ≢ success
failed_state-ne network_failure t h = cc (h)
failed_state-ne not_found t h = cc (h)
failed_state-ne device_offline t h = cc (h)
failed_state-ne permission_denied t h = cc (h)
failed_state-ne unknown t h = cc (h)

online_of_success :
    (site : SiteDetailDto)
    → (if is_zero site.online_device_count then failed_offline none else success) ≡ success
    → is_zero site.online_device_count ≡ false
online_of_success site h = elim (Bool-cases (is_zero site.online_device_count)) [
  | inl off ↦ cc (rw off at h)
  | inr on ↦ on
]

settle_load-Brings :
    (r : Result (SiteDetailDto × List CellDto)) (s : SiteDetailPage)
    → 0 < s.pending
    → (settle_load r s).load_state ≡ success
    → Brings s (load_settled r) (settle_load r s)
unfolding settle_load
settle_load-Brings (ok (site, cells)) s waits h =
    (site, refl, online_of_success site h, refl, waits)
settle_load-Brings (err f) s waits h =
    absurd (failed_state-ne (to_app_error f).code (when_truthy (to_app_error f).trace_id) h)

step-Shows :
    (s : SiteDetailPage) (e : Event)
    → (step s e).load_state ≡ success
    → Same s (step s e) ⊎ Brings s e (step s e)
unfolding step
step-Shows s (load_settled r) h = elim (Bool-cases (ltb 0 s.pending)) [
  | inl waits ↦ rw waits (inr (settle_load-Brings r s (ltb→lt 0 s.pending waits) (rw waits at h)))
  | inr idle ↦ rw idle (inl (rw idle at h, refl, refl))
]
step-Shows s tap_retry h = inl (retry-Same s.load_state s h)

-- The site and the cells that the page shows come with one of the events.
abbrev Shows : SiteDetailPage → List Event → SiteDetailPage → Type 0
Shows s es final =
    (site : SiteDetailDto) × (final.site ≡ some site)
    × (is_zero site.online_device_count ≡ false)
    × AnsweredBy s es site final.cells

run-Shows :
    (s : SiteDetailPage) (es : List Event)
    → (run s es).load_state ≡ success
    → Same s (run s es) ⊎ Shows s es (run s es)
unfolding run
run-Shows s [] h = inl (h, refl, refl)
run-Shows s (e ∷ es) h = elim (run-Shows (step s e) es h) [
  | inr (site, shown, online, later) ↦ inr (site, shown, online, inr later)
  | inl (loaded, same_site, same_cells) ↦ elim (step-Shows s e loaded) [
    | inl (before, site_kept, cells_kept) ↦
        inl (before, same_site ∙ site_kept, same_cells ∙ cells_kept)
    | inr (site, shown, online, brought, waits) ↦
        inr (site, same_site ∙ shown, online, inl (rw same_cells brought, waits))
  ]
]

start_not_loaded : (site_id : Text) → (start site_id).load_state ≢ success
unfolding start load
start_not_loaded site_id h = elim (Bool-cases (truthy site_id)) [
  | inl named ↦ cc (rw named at h)
  | inr nameless ↦ cc (rw nameless at h)
]

-- In every run from the start, where the page of a site shows its name and the counts of its cells,
-- the site and the cells are those of one answer to an open call, and the site has a device online.
pub site_run-success :
    (site_id : Text) (es : List Event)
    → (run (start site_id) es).load_state ≡ success
    → (site : SiteDetailDto) × ((run (start site_id) es).site ≡ some site)
      × (is_zero site.online_device_count ≡ false)
      × AnsweredBy (start site_id) es site (run (start site_id) es).cells
site_run-success site_id es h = elim (run-Shows (start site_id) es h) [
  | inl (first, _, _) ↦ absurd (start_not_loaded site_id first)
  | inr shown ↦ shown
]
