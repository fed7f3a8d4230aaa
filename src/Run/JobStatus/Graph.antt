-- ===== src/Run/JobStatus/Graph.antt =====
-- The legal transitions of a job run as a step relation.
use forgelet.Prelude.{◌≡◌, refl, ◌↔◌, true, none, is_none, if◌then◌else◌, arith}
use forgelet.Run.JobStatus.{JobRunStatus, is_terminal, can_transition_job, transition_job}
use JobRunStatus.{unset, queued, dispatched, running, succeeded, failed, cancelled, skipped}

-- A status that the state machine can still leave.
pub data IsOpen : JobRunStatus → Type 0 where
  unset_open : IsOpen unset
  queued_open : IsOpen queued
  dispatched_open : IsOpen dispatched
  running_open : IsOpen running

-- A status under which a pod may exist.
pub data HasPod : JobRunStatus → Type 0 where
  dispatched_pod : HasPod dispatched
  running_pod : HasPod running

infix 40 ◌⟶◌ ◌⟶*◌
pub data ◌⟶◌ : JobRunStatus → JobRunStatus → Type 0 where
  dispatch : queued ⟶ dispatched
  start : {s : JobRunStatus} → HasPod s → s ⟶ running
  succeed : {s : JobRunStatus} → HasPod s → s ⟶ succeeded
  fail : {s : JobRunStatus} → HasPod s → s ⟶ failed
  cancel : {s : JobRunStatus} → IsOpen s → s ⟶ cancelled
  skip : {s : JobRunStatus} → IsOpen s → s ⟶ skipped

pub data ◌⟶*◌ (s : JobRunStatus) : JobRunStatus → Type 0 where
  here : s ⟶* s
  next : {t u : JobRunStatus} → s ⟶* t → t ⟶ u → s ⟶* u

ruleset edges = (
  dispatch, start, succeed, fail, cancel, skip, unset_open, queued_open, dispatched_open,
  running_open, dispatched_pod, running_pod,
)

can_transition_job→⟶ : (a b : JobRunStatus) → can_transition_job a b ≡ true → a ⟶ b
unfolding can_transition_job
can_transition_job→⟶ a b h = grind (arith, edges)

⟶→can_transition_job : {a b : JobRunStatus} → a ⟶ b → can_transition_job a b ≡ true
unfolding can_transition_job
⟶→can_transition_job dispatch = ground arith
⟶→can_transition_job (start dispatched_pod) = ground arith
⟶→can_transition_job (start running_pod) = ground arith
⟶→can_transition_job (succeed dispatched_pod) = ground arith
⟶→can_transition_job (succeed running_pod) = ground arith
⟶→can_transition_job (fail dispatched_pod) = ground arith
⟶→can_transition_job (fail running_pod) = ground arith
⟶→can_transition_job (cancel unset_open) = ground arith
⟶→can_transition_job (cancel queued_open) = ground arith
⟶→can_transition_job (cancel dispatched_open) = ground arith
⟶→can_transition_job (cancel running_open) = ground arith
⟶→can_transition_job (skip unset_open) = ground arith
⟶→can_transition_job (skip queued_open) = ground arith
⟶→can_transition_job (skip dispatched_open) = ground arith
⟶→can_transition_job (skip running_open) = ground arith

-- `TransitionJob` succeeds exactly along the edges of the diagram, and then returns the target.
-- On an error the status is the old one.
pub transition_job-⟶ :
    (a b : JobRunStatus)
    → ((transition_job a b).1 ≡ none ↔ (a ⟶ b))
      × ((transition_job a b).0 ≡ (if is_none (transition_job a b).1 then b else a))
unfolding transition_job
transition_job-⟶ a b = (
  (λ h. can_transition_job→⟶ a b (ground arith), λ e. ground (arith, ⟶→can_transition_job e)),
  ground arith,
)

terminal_no_edge : {a b : JobRunStatus} → a ⟶ b → is_terminal a ≡ true → ⊥
unfolding is_terminal can_transition_job
terminal_no_edge e h = ground (arith, ⟶→can_transition_job e)

-- No history of legal transitions leads from a terminal status to another one.
pub ⟶*-terminal : {a b : JobRunStatus} → a ⟶* b → is_terminal a ≡ true → b ≡ a
⟶*-terminal here h = refl
⟶*-terminal (next {t = t} r e) h = absurd (terminal_no_edge e (rw (⟶*-terminal r h) h))
