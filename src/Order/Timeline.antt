-- ===== src/Order/Timeline.antt =====
-- frontend/apps/miniapp/src/components/status-timeline.tsx: the steps of an order's life.
use smart_parcel_locker.Prelude.{
  inr, inl, replicate, ◌⊎◌, ℕ, suc, Text, text, Bool, true, false, Option, some, List, [], ◌∷◌,
  ◌++◌, ◌≡◌, refl, if◌then◌else◌, ltb, leb, ◌==◌,
}
use smart_parcel_locker.Order.{
  OrderStatus, unspecified, pending_payment, paid, awaiting_deposit, in_storage, awaiting_pickup,
  overdue, completed, cancelled, inherited, foreign, to_order_status_view,
}

pub data StepState : Type 0 where
  done current upcoming : StepState

-- A label of the timeline, in the style of its state.
pub record Step : Type 0 where
  pub label : Option Text
  pub state : StepState

-- `MAIN_FLOW`
abbrev pub main_flow : List OrderStatus
main_flow = pending_payment ∷ awaiting_deposit ∷ in_storage ∷ awaiting_pickup ∷ completed ∷ []

-- `STATUS_STEP_INDEX[status] ?? 0`, and 2 for overdue; a function that the table inherits is
-- neither above nor equal to a number, nor below one.
pub data StepIndex : Type 0 where
  at : ℕ → StepIndex
  not_a_number : StepIndex

unfoldable pub current_index : OrderStatus → StepIndex
current_index pending_payment = at 0
current_index paid = at 1
current_index awaiting_deposit = at 1
current_index in_storage = at 2
current_index awaiting_pickup = at 3
current_index completed = at 4
current_index overdue = at 2
current_index (inherited t) = not_a_number
current_index _ = at 0

abbrev is_overdue : OrderStatus → Bool
is_overdue overdue = true
is_overdue _ = false

unfoldable pub step_state : Bool → ℕ → StepIndex → StepState
step_state true index (at now) = if leb index now then done else upcoming
step_state false index (at now) =
    if ltb index now then done else if index == now then current else upcoming
step_state _ index not_a_number = upcoming

-- The branch step of an overdue order.
abbrev overdue_step : Bool → ℕ → StepIndex → List Step
overdue_step true index (at now) =
    if index == now then record { label = some (text "已逾期"); state = current } ∷ [] else []
overdue_step _ index now = []

-- `MAIN_FLOW.map((step, index) => …)` from `index` on.
steps_from : ℕ → List OrderStatus → OrderStatus → List Step
unfolding step_state current_index
steps_from index [] status = []
steps_from index (step ∷ rest) status =
    record {
      label = (to_order_status_view step).label;
      state = step_state (is_overdue status) index (current_index status);
    }
    ∷ (overdue_step (is_overdue status) index (current_index status)
        ++ steps_from (suc index) rest status)

abbrev is_cancelled : OrderStatus → Bool
is_cancelled cancelled = true
is_cancelled _ = false

-- `StatusTimeline`
unfoldable pub status_timeline : OrderStatus → List Step
unfolding steps_from
status_timeline status =
    if is_cancelled status
    then record { label = some (text "已取消"); state = current } ∷ []
    else steps_from 0 main_flow status

abbrev pub states : List Step → List StepState
states [] = []
states (s ∷ rest) = s.state ∷ states rest

-- Done steps, the current one, and the steps to come.
abbrev pub IsProgress : List StepState → Type 0
IsProgress l =
    (before : ℕ) × (after : ℕ) × (l ≡ replicate before done ++ (current ∷ replicate after upcoming))

-- The timeline of a status that is no inherited name shows done steps, then one current step, then
-- the steps to come.
pub status_timeline-IsProgress :
    (s : OrderStatus) → IsProgress (states (status_timeline s)) ⊎ ((t : Text) × (s ≡ inherited t))
unfolding status_timeline
status_timeline-IsProgress unspecified = inl (0, 4, refl)
status_timeline-IsProgress pending_payment = inl (0, 4, refl)
status_timeline-IsProgress paid = inl (1, 3, refl)
status_timeline-IsProgress awaiting_deposit = inl (1, 3, refl)
status_timeline-IsProgress in_storage = inl (2, 2, refl)
status_timeline-IsProgress awaiting_pickup = inl (3, 1, refl)
status_timeline-IsProgress overdue = inl (3, 2, refl)
status_timeline-IsProgress completed = inl (4, 0, refl)
status_timeline-IsProgress cancelled = inl (0, 0, refl)
status_timeline-IsProgress (inherited t) = inr (t, refl)
status_timeline-IsProgress (foreign t) = inl (0, 4, refl)
