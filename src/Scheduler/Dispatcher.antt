-- ===== src/Scheduler/Dispatcher.antt =====
-- internal/run/scheduler/dispatcher.go: from a queued job to an acknowledged active object.
use forgelet.Prelude.{Bool, ◌||◌, is, if◌then◌else◌}
use forgelet.Run.JobStatus.{JobRunStatus, job_status_key}
use forgelet.Run.Records.{JobRunId, Time, JobRunRecord, cr_name}
use forgelet.Memory.State.{Result, StoreError, ok, err}
use forgelet.Memory.Update.{ActiveObject}
use forgelet.Scheduler.Port.{DurablePort, ActivePort}

unfoldable pub is_dispatchable : JobRunStatus → Bool
is_dispatchable status = is status JobRunStatus.queued || is status JobRunStatus.dispatched

module _ {S A : Type 0} (port : DurablePort S) (active : ActivePort A) where
  paired : A → S × Result (Unit {0}) → (S × A) × Result (Unit {0})
  paired a (s, r) = ((s, a), r)

  -- The acknowledgement, once the active object is there.
  acknowledge : JobRunId → Time → S → A × Result ActiveObject → (S × A) × Result (Unit {0})
  unfolding paired
  acknowledge id now s (a, err e) = ((s, a), err e)
  acknowledge id now s (a, ok obj) =
      paired a (port.ack_dispatched id (record { name = cr_name id; uid = obj.uid }) now s)

  unfoldable pub dispatch : JobRunId → Time → S × A → (S × A) × Result (Unit {0})
  unfolding is_dispatchable acknowledge
  dispatch id now (s, a) = elim (port.get_job_run id s) [
    | err e ↦ ((s, a), err e)
    | ok job ↦
        if is_dispatchable job.status
        then acknowledge id now s (active.create_or_get id a)
        else ((s, a), err (StoreError.job_not_dispatchable id job.status))
  ]

  -- A failed dispatch gives the claim back.
  settle : JobRunRecord → (S × A) × Result (Unit {0}) → (S × A) × Result JobRunRecord
  settle job (w, ok u) = (w, ok job)
  settle job ((s, a), err e) = (((port.release_claim job.id s).0, a), err e)

  claimed_next : Time → A → S × Result JobRunRecord → (S × A) × Result JobRunRecord
  unfolding dispatch settle
  claimed_next now a (s, err e) = ((s, a), err e)
  claimed_next now a (s, ok job) = settle job (dispatch job.id now (s, a))

  unfoldable pub dispatch_next : (JobRunId → Time) → Time → S × A → (S × A) × Result JobRunRecord
  unfolding claimed_next
  dispatch_next clock now (s, a) = claimed_next now a (port.claim_next_queued_job clock s)
