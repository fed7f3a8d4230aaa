-- ===== src/Tests/Store.antt =====
-- The durable store at concrete inputs.
use forgelet.Prelude.{
  map, ◌≡◌, ◌≢◌, refl, some, none, lookup, lookup_or, insert, text_key, text, List, [], ◌∷◌, true,
  false, Text-discrete, any, is, if◌then◌else◌,
}
use forgelet.Run.JobStatus.{can_advance_job, is_terminal, JobRunStatus, JobRunStatus-discrete}
use forgelet.Run.RunStatus
use forgelet.Run.RunStatus.{WorkflowRunStatus}
use forgelet.Run.Records.{
  job_status_from_phase, DeliveryKey-discrete, ObservedPhase, JobRunRecord, RunRecord, RunSeed,
  delivery_key,
}
use forgelet.Memory.State.{DurableStore, StoreError, new_durable_store, ok, err, job_at}
use forgelet.Memory.Create.{
  record_delivery, create_run, create_new, finish_create, add_jobs, add_job,
}
use forgelet.Memory.Claim.{Candidate, claim_next_queued_job, dependency_state_locked}
use forgelet.Memory.Update.{stamp, apply_observed, cancel_run}
use forgelet.Memory.Progress.{Forward}
use forgelet.Memory.Candidates.Needs.{Released}
use forgelet.Memory.Candidates.{
  IsCandidate, claim_next_queued_job-claims, claim_next_queued_job-twice,
}
use forgelet.Memory.Observed.{again, apply_observed-again}
use forgelet.Memory.Cancel.{cancelled, cancel_run-jobs}
use forgelet.Memory.Refusal.{Leaves, create_run-Leaves}
use forgelet.Memory.Invariant.{WellFormed}
use forgelet.Memory.Invariant.History.{
  Call, history, step, acks, observes, cancels, history-Forward, step-WellFormed,
}
use forgelet.Memory.Delivery.Replay.{create_run-replay}
use forgelet.Tests.{
  seed, intent, recorded, started, run_1, build_1, test_1, build_job, recorded-WellFormed,
  started-WellFormed, started_build, first_run, started_run,
}

abbrev life : List Call
life =
    acks build_1 (record { name = text "jobrun-2"; uid = text "u" }) 3
    ∷ observes build_1 ObservedPhase.succeeded 5
    ∷ cancels run_1 6
    ∷ []

history-Forward_example :
    (b : JobRunRecord) × (lookup build_1 (history started life).jobs ≡ some b) × Forward build_job b
history-Forward_example =
    history-Forward started life build_1 build_job started-WellFormed started_build

step-WellFormed_example : WellFormed (step started (cancels run_1 9))
step-WellFormed_example = step-WellFormed started (cancels run_1 9) started-WellFormed

started_result : (create_run seed 2 recorded).1 ≡ ok (first_run, true)
unfolding lookup insert create_run record_delivery new_durable_store Text-discrete
    DeliveryKey-discrete create_new finish_create add_jobs add_job
started_result = refl

create_run-replay_example :
    let t = history started life in
    (run' : RunRecord) × (create_run seed 8 t ≡ (t, ok (run', false))) × (run'.id ≡ run_1)
create_run-replay_example =
    create_run-replay seed seed 2 8 recorded first_run life recorded-WellFormed started_result refl

cancel_run-jobs_example :
    let (t, r) = cancel_run run_1 4 started in
    let listed = any (λ i. is i build_1) (lookup_or [] run_1 started.run_jobs) in
    (r ≡ ok tt)
    × (lookup run_1 t.runs
        ≡ some (record first_run { status = WorkflowRunStatus.cancelled; finished_at = some 4 }))
    × (lookup build_1 t.jobs ≡ some (if listed then cancelled 4 build_job else build_job))
    × (lookup build_1 t.claimed ≡ (if listed then none else lookup build_1 started.claimed))
    × (cancel_run run_1 7 t ≡ (t, ok tt))
unfolding RunStatus.is_terminal
cancel_run-jobs_example =
    cancel_run-jobs run_1 build_1 4 7 started first_run build_job started_run refl started_build

abbrev running_job : JobRunRecord
running_job = record build_job { status = JobRunStatus.running; started_at = some 3 }

abbrev one_running : DurableStore
one_running = record started { jobs = insert build_1 running_job started.jobs }

one_running_build : lookup build_1 one_running.jobs ≡ some running_job
unfolding lookup insert create_run record_delivery new_durable_store Text-discrete
    DeliveryKey-discrete create_new finish_create add_jobs add_job
one_running_build = refl

apply_observed-again_example :
    lookup build_1
      (apply_observed build_1 ObservedPhase.running 9
        (apply_observed build_1 ObservedPhase.running 7 one_running).0).0.jobs
    ≡ some (record running_job { started_at = some 9 })
unfolding again is_terminal job_status_from_phase Text-discrete can_advance_job
    JobRunStatus-discrete stamp
apply_observed-again_example =
    apply_observed-again build_1 build_1 ObservedPhase.running 7 9 one_running running_job
      one_running_build

abbrev twin_seed : RunSeed
twin_seed = record seed { jobs = intent (text "a") [] ∷ intent (text "a") [] ∷ [] }

twin_refused :
    (create_run twin_seed 2 recorded).1 ≡ err (StoreError.duplicate_job_key (text "a") run_1)
unfolding lookup insert create_run record_delivery new_durable_store Text-discrete
    DeliveryKey-discrete create_new finish_create add_jobs add_job
twin_refused = refl

create_run-Leaves_example :
    Leaves
      (recorded.ids.mint recorded.ids.drawn)
      2
      twin_seed.jobs
      recorded
      (create_run twin_seed 2 recorded).0
create_run-Leaves_example =
    create_run-Leaves twin_seed 2 recorded (StoreError.duplicate_job_key (text "a") run_1)
      twin_refused

-- The job of the first intent stays, without a run.
twin_left : map (λ e. e.1.run_id) (create_run twin_seed 2 recorded).0.jobs ≡ run_1 ∷ []
unfolding lookup insert create_run record_delivery new_durable_store Text-discrete
    DeliveryKey-discrete create_new finish_create add_jobs add_job
twin_left = refl

started_claim : (claim_next_queued_job (λ _. 3) started).1 ≡ ok build_job
unfolding lookup insert create_run record_delivery new_durable_store Text-discrete
    DeliveryKey-discrete create_new finish_create add_jobs add_job claim_next_queued_job
    JobRunStatus-discrete dependency_state_locked
started_claim = refl

claim_next_queued_job-claims_example :
    let t = (claim_next_queued_job (λ _. 3) started).0 in
    (c : Candidate) × IsCandidate started c
    × (build_job ≡ job_at t c.id)
    × (t.claimed ≡ insert c.id true started.claimed)
    × Released t build_job
claim_next_queued_job-claims_example =
    claim_next_queued_job-claims (λ _. 3) started build_job started_claim

-- A run of two jobs that wait for nothing.
abbrev pair : DurableStore
pair =
    (create_run (record seed { jobs = intent (text "build") [] ∷ intent (text "lint") [] ∷ [] }) 2
      recorded).0

abbrev lint_job : JobRunRecord
lint_job = record build_job { id = test_1; job_key = text "lint" }

pair_first : (claim_next_queued_job (λ _. 3) pair).1 ≡ ok build_job
unfolding lookup insert create_run record_delivery new_durable_store Text-discrete
    DeliveryKey-discrete create_new finish_create add_jobs add_job claim_next_queued_job
    JobRunStatus-discrete dependency_state_locked
pair_first = refl

pair_second :
    (claim_next_queued_job (λ _. 4) (claim_next_queued_job (λ _. 3) pair).0).1 ≡ ok lint_job
unfolding lookup insert create_run record_delivery new_durable_store Text-discrete
    DeliveryKey-discrete create_new finish_create add_jobs add_job claim_next_queued_job
    JobRunStatus-discrete dependency_state_locked
pair_second = refl

claim_next_queued_job-twice_example :
    let t = (claim_next_queued_job (λ _. 3) pair).0 in
    (c c' : Candidate) × (build_job ≡ job_at t c.id)
    × (lint_job ≡ job_at (claim_next_queued_job (λ _. 4) t).0 c'.id)
    × (c.id ≢ c'.id)
claim_next_queued_job-twice_example =
    claim_next_queued_job-twice (λ _. 3) (λ _. 4) pair build_job lint_job pair_first pair_second
