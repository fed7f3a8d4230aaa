-- ===== src/Scheduler/Projector.antt =====
-- internal/run/scheduler/projector.go: projection of phases, collection and cancellation.
use forgelet.Prelude.{ℕ, suc, List, [], ◌∷◌}
use forgelet.Run.Records.{RunId, JobRunId, Time, JobRunRecord, ObservedPhase}
use forgelet.Memory.State.{Result, ok, err}
use forgelet.Scheduler.Port.{DurablePort, ActivePort}

module _ {S A : Type 0} (port : DurablePort S) (active : ActivePort A) where
  unfoldable pub project : JobRunId → ObservedPhase → Time → S → S × Result (Unit {0})
  project id phase now s = port.apply_observed id phase now s

  unfoldable pub cancel : RunId → Time → S → S × Result (Unit {0})
  cancel id now s = port.cancel_run id now s

  -- The round of the loop behind a delete that succeeded, and the rest of the loop.
  marked :
      A
      → (S × A → (S × A) × ℕ × Result (Unit {0}))
      → ℕ
      → S × Result (Unit {0})
      → (S × A) × ℕ × Result (Unit {0})
  marked a next n (s, err e) = ((s, a), n, err e)
  marked a next n (s, ok u) = next (s, a)

  deleted :
      JobRunId
      → Time
      → S
      → (S × A → (S × A) × ℕ × Result (Unit {0}))
      → ℕ
      → A × Result (Unit {0})
      → (S × A) × ℕ × Result (Unit {0})
  unfolding marked
  deleted id now s next n (a, err e) = ((s, a), n, err e)
  deleted id now s next n (a, ok u) = marked a next n (port.mark_collected id now s)

  -- The loop of `Collect`, with the jobs collected so far. `clock id` is the reading for `id`.
  unfoldable pub collect_jobs :
      (JobRunId → Time) → List JobRunRecord → ℕ → S × A → (S × A) × ℕ × Result (Unit {0})
  unfolding deleted
  collect_jobs clock [] n w = (w, n, ok tt)
  collect_jobs clock (j ∷ js) n (s, a) =
      deleted j.id (clock j.id) s (collect_jobs clock js (suc n)) n (active.delete j.id a)

  unfoldable pub collect : (JobRunId → Time) → S × A → (S × A) × ℕ × Result (Unit {0})
  unfolding collect_jobs
  collect clock (s, a) = elim (port.list_gc_ready_jobs s) [
    | err e ↦ ((s, a), 0, err e)
    | ok jobs ↦ collect_jobs clock jobs 0 (s, a)
  ]
