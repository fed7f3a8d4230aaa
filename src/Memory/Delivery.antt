-- ===== src/Memory/Delivery.antt =====
-- `RecordDelivery` and `CreateRun` on a replay.
pub mod Operations
pub mod Binding
pub mod Replay
use forgelet.Prelude.{
  ◌≡◌, refl, sym, ap, ◌≢◌, ◌∙◌, inl, inr, true, false, none, some, Map, List, [], ◌∷◌, lookup,
  insert, lookup-insert, lookup_or, text_key, arith, Option-cases, if_pos, if_neg,
}
use forgelet.Run.Records.{
  RunId, JobRunId, Time, RunRecord, DeliveryKey, Delivery, DeliveryRecord, RunSeed, JobIntent,
  ObservedPhase, JobRunRecord, delivery_key,
}
use forgelet.Run.JobStatus.{JobRunStatus}
use forgelet.Run.Aggregate.{aggregate_run_status}
use forgelet.Run.RunStatus.{WorkflowRunStatus}
use forgelet.Memory.State.{job_at, DurableStore, Result, ok, err}
use forgelet.Memory.Create.{
  Created, record_delivery, add_job, add_jobs, finish_create, create_new, create_run, commit_run,
}
use forgelet.Memory.Claim.{
  Candidate, statuses_of, skipped_at, refresh_run_locked, set_run_status, skip_job, claim_first,
  claim_next_queued_job, release_claim,
}
use forgelet.Memory.Update.{
  ActiveObject, ack_dispatched, apply_observed, observe, cancel_job, cancel_jobs, cancel_run,
  put_cancelled, reopen, point_key, add_attempt, rerequest_job, mark_collected,
}
use forgelet.Memory.Invariant.History.{
  Call, records, creates, claims, releases, acks, observes, cancels, rerequests, collects, step,
  history,
}

-- The delivery is bound to the run, which exists under its own identifier.
pub record Bound (k : DeliveryKey) (r : RunId) (s : DurableStore) : Type 0 where
  pub rec : DeliveryRecord
  pub recorded : lookup k s.deliveries ≡ some rec
  pub bound : rec.run_id ≡ r
  pub run : RunRecord
  pub stored : lookup r s.runs ≡ some run
  pub named : run.id ≡ r

-- The deliveries are untouched, and the run is there as before or rewritten under its own name.
record Keeping (r : RunId) (s t : DurableStore) : Type 0 where
  pub deliveries : t.deliveries ≡ s.deliveries
  pub runs :
      (a : RunRecord)
      → lookup r s.runs ≡ some a
      → (b : RunRecord) × (lookup r t.runs ≡ some b) × (b.id ≡ a.id)

pub KeepsBound : RunId → DurableStore → DurableStore → Type 0
KeepsBound r s t = Keeping r s t

pub Bound-keep :
    (k : DeliveryKey) (r : RunId) (s t : DurableStore)
    → KeepsBound r s t
    → Bound k r s
    → Bound k r t
unfolding KeepsBound
Bound-keep k r s t h b =
    let (run, e, n) = h.runs b.run b.stored in
    record {
      rec = b.rec;
      recorded = rw h.deliveries b.recorded;
      bound = b.bound;
      run = run;
      stored = e;
      named = n ∙ b.named;
    }

pub KeepsBound-refl :
    (r : RunId) (s t : DurableStore)
    → t.deliveries ≡ s.deliveries
    → t.runs ≡ s.runs
    → KeepsBound r s t
unfolding KeepsBound
KeepsBound-refl r s t d e = record { deliveries = d; runs = λ a f. (a, rw e f, refl) }

pub KeepsBound-trans :
    (r : RunId) (s t u : DurableStore) → KeepsBound r s t → KeepsBound r t u → KeepsBound r s u
unfolding KeepsBound
KeepsBound-trans r s t u p q = record {
  deliveries = q.deliveries ∙ p.deliveries;
  runs = λ a e. let (b, f, m) = p.runs a e in let (c, g, n) = q.runs b f in (c, g, n ∙ m);
}

-- A run is rewritten under its own key.
pub rewrite_run-KeepsBound :
    (r q : RunId) (s t : DurableStore) (a b : RunRecord)
    → lookup q s.runs ≡ some a
    → b.id ≡ a.id
    → t.deliveries ≡ s.deliveries
    → t.runs ≡ insert q b s.runs
    → KeepsBound r s t
unfolding KeepsBound
rewrite_run-KeepsBound r q s t a b e n d i = record {
  deliveries = d;
  runs = λ c f. elim (text_key.dec q r) [
    | yes p ↦ (
      b,
      ground (arith, lookup-insert q r b s.runs),
      ground (arith, ap (λ (k : RunId). lookup k s.runs) p),
    )
    | no p ↦ (c, ground (arith, lookup-insert q r b s.runs), refl)
  ];
}

set_run_status-id :
    (a : RunRecord) (x : WorkflowRunStatus) (now : Time) → (set_run_status a x now).id ≡ a.id
unfolding set_run_status
set_run_status-id a x now = ground arith

refresh_run_locked-KeepsBound :
    (r q : RunId) (now : Time) (s : DurableStore) → KeepsBound r s (refresh_run_locked q now s)
unfolding refresh_run_locked
refresh_run_locked-KeepsBound r q now s = elim (Option-cases (lookup q s.runs)) [
  | inl e ↦ rw (e, refresh_run_locked) (KeepsBound-refl r s s refl refl)
  | inr (a, e) ↦
      let next = aggregate_run_status (statuses_of s q) in
      let b = set_run_status a next now in
      let t = record s { runs = insert q b s.runs } in
      let wrote = rewrite_run-KeepsBound r q s t a b e (set_run_status-id a next now) refl refl in
      rw (e, refresh_run_locked) (ground (arith, KeepsBound-refl r s s refl refl, wrote))
]

-- A write to the job table and a refresh.
write_job-KeepsBound :
    (r q : RunId) (id : JobRunId) (j : JobRunRecord) (now : Time) (s : DurableStore)
    → KeepsBound r s (refresh_run_locked q now (record s { jobs = insert id j s.jobs }))
write_job-KeepsBound r q id j now s =
    let t = record s { jobs = insert id j s.jobs } in
    KeepsBound-trans r s t _ (KeepsBound-refl r s t refl refl)
      (refresh_run_locked-KeepsBound r q now t)

skip_job-KeepsBound :
    (r : RunId) (id : JobRunId) (t : Time) (s : DurableStore) → KeepsBound r s (skip_job id t s)
unfolding skip_job
skip_job-KeepsBound r id t s =
    let job = job_at s id in
    ground (
      arith,
      KeepsBound-refl r s s refl refl,
      write_job-KeepsBound r job.run_id id (skipped_at JobRunStatus.skipped t job) t s,
    )

claim_first-KeepsBound :
    (r : RunId) (clock : JobRunId → Time) (cs : List Candidate) (s : DurableStore)
    → KeepsBound r s (claim_first clock cs s).0
unfolding claim_first
claim_first-KeepsBound r clock [] s = KeepsBound-refl r s s refl refl
claim_first-KeepsBound r clock (c ∷ cs) s =
    let t = skip_job c.id (clock c.id) s in
    let u = record s { claimed = insert c.id true s.claimed } in
    ground (
      arith,
      KeepsBound-refl r s u refl refl,
      claim_first-KeepsBound r clock cs s,
      KeepsBound-trans r s t _ (skip_job-KeepsBound r c.id (clock c.id) s)
          (claim_first-KeepsBound r clock cs t),
    )
