-- ===== src/Server/Bound.antt =====
-- Which job runs a request can touch, over the in-memory stores.
use mathlib.Core.Path.{subst}
use forgelet.Prelude.{
  Option, Text, text, text_key, lookup, if◌then◌else◌, ◌⊎◌, inl, inr, ◌≡◌, ◌≢◌, refl, sym, ap, ◌∙◌,
  arith, Option-cases, Result-cases,
}
use forgelet.Run.Records.{JobRunId, Time, ObservedPhase}
use forgelet.Scheduler.Port.{DurablePort}
use forgelet.Memory.State.{Result, DurableStore, ok, err, StoreError}
use forgelet.Memory.Update.{apply_observed}
use forgelet.Memory.Observed.{apply_observed-jobs}
use forgelet.Scheduler.Projector.{project}
use forgelet.Scheduler.Backend.{memory_port, memory_active}
use forgelet.Security.Identity.{Identity, scope_status_write}
use forgelet.Executor.Plan.{JobResult}
use forgelet.Report.{map_job_run}
use forgelet.Server.State.{Server, report_check, project_observed}
use forgelet.Server.Access.{
  HttpError, bad_request, Request, scoped_job, observe_phase, handle_status,
}
use forgelet.Server.Secrets.{IsBearer, scoped_job-IsBearer}

-- The plans and the trust levels are kept, and so is the record of every job run but one.
pub record Spares (id : JobRunId) (s t : Server DurableStore) : Type 0 where
  pub plans : t.plans ≡ s.plans
  pub trust : t.trust ≡ s.trust
  pub jobs : (j : JobRunId) → id ≢ j → lookup j t.durable.jobs ≡ lookup j s.durable.jobs

apply_observed-others :
    (id j : JobRunId) (phase : ObservedPhase) (now : Time) (s : DurableStore)
    → id ≢ j
    → lookup j (apply_observed id phase now s).0.jobs ≡ lookup j s.jobs
unfolding apply_observed
apply_observed-others id j phase now s n = elim (Option-cases (lookup id s.jobs)) [
  | inl e ↦ rw (apply_observed, e) refl
  | inr (job, e) ↦ ground (arith, (apply_observed-jobs id j phase now s job e).1, n)
]

apply_observed-refused :
    (id : JobRunId) (phase : ObservedPhase) (now : Time) (s : DurableStore) (e : StoreError)
    → (apply_observed id phase now s).1 ≡ err e
    → (apply_observed id phase now s).0 ≡ s
unfolding apply_observed
apply_observed-refused id phase now s e h = elim (Option-cases (lookup id s.jobs)) [
  | inl q ↦ rw (apply_observed, q) refl
  | inr (job, q) ↦ let (o, _) = apply_observed-jobs id id phase now s job q in cc
]

pub Stored-cases :
    {A : Type 0} (r : Result A) → ((a : A) × (r ≡ ok a)) ⊎ ((e : StoreError) × (r ≡ err e))
Stored-cases (ok a) = inl (a, refl)
Stored-cases (err e) = inr (e, refl)

-- A report changes nothing but the list of what was reported.
pub report_check-keeps :
    {S : Type 0} (port : DurablePort S) (details_base : Text) (id : JobRunId) (s : Server S)
    → ((report_check port details_base id s).durable ≡ s.durable)
      × ((report_check port details_base id s).plans ≡ s.plans)
      × ((report_check port details_base id s).trust ≡ s.trust)
unfolding report_check
report_check-keeps port details_base id s = elim (Stored-cases (port.get_job_run id s.durable)) [
  | inr (e, q) ↦ rw (report_check, q) (refl, refl, refl)
  | inl (job, q) ↦ elim (Stored-cases (port.get_run job.run_id s.durable)) [
    | inr (e, g) ↦ rw (report_check, q, g) (refl, refl, refl)
    | inl (run, g) ↦ elim (Result-cases (map_job_run job details_base)) [
      | inr (e, m) ↦ rw (report_check, q, g, m) (refl, refl, refl)
      | inl (check, m) ↦ rw (report_check, q, g, m) (refl, refl, refl)
    ]
  ]
]

-- What a request may do to the server: a refusal changes nothing, a success the one job run.
abbrev pub Touches :
    JobRunId → Server DurableStore → Server DurableStore × (Unit {0} ⊎ HttpError) → Type 0
Touches id s (t, inr e) = t ≡ s
Touches id s (t, inl u) = Spares id s t

module _ (identify : Text → Option Identity) (details_base : Text) where
  observe_phase-Touches :
      (id : JobRunId) (phase : ObservedPhase) (now : Time) (s : Server DurableStore)
      → Touches id s (observe_phase identify memory_port memory_active details_base id phase now s)
  unfolding observe_phase project_observed project
  observe_phase-Touches id phase now s =
      elim (Stored-cases (apply_observed id phase now s.durable).1) [
        | inr (e, q) ↦
            rw (observe_phase, q)
              (ap (λ d. record s { durable = d })
                (apply_observed-refused id phase now s.durable e q))
        | inl (u, q) ↦
            let t : Server DurableStore = record s {
              durable = (apply_observed id phase now s.durable).0;
            } in
            let (d, p, r) = report_check-keeps memory_port details_base id t in
            rw (observe_phase, q)
              (record {
                plans = p;
                trust = r;
                jobs = λ j n.
                    ap (λ x. lookup j x.jobs) d ∙ apply_observed-others id j phase now s.durable n;
              })
      ]

  -- What a request of the kind may do, and who made one that is taken.
  abbrev pub Guarded :
      {B : Type 0}
      → Text
      → Request B
      → Server DurableStore
      → Server DurableStore × (Unit {0} ⊎ HttpError)
      → Type 0
  Guarded scope r s w =
      Touches r.id s w × (w.1 ≡ inl tt → (ident : Identity) × IsBearer identify scope r ident)

  -- A status report that is refused changes nothing. One that is taken comes from the bearer of a
  -- token that is bound to the job run of the request and may write the status, and it changes the
  -- record of no other job run, no plan and no trust level.
  pub handle_status-Guarded :
      (now : Time) (r : Request JobResult) (s : Server DurableStore)
      → Guarded scope_status_write r s
          (handle_status identify memory_port memory_active details_base now r s)
  unfolding handle_status
  handle_status-Guarded now r s = elim (Result-cases (scoped_job identify scope_status_write r)) [
    | inr (e, q) ↦ rw (handle_status, q) (refl, λ c. cc)
    | inl (ident, q) ↦ elim (Option-cases r.body) [
      | inl b ↦
          let e : handle_status identify memory_port memory_active details_base now r s
              ≡ (s, inr (bad_request (text "malformed result"))) =
            rw (handle_status, q, b) refl in
          subst (Guarded scope_status_write r s) (sym e) (refl, λ c. cc)
      | inr (result, b) ↦
          let phase = if result.success then ObservedPhase.succeeded else ObservedPhase.failed in
          let e : handle_status identify memory_port memory_active details_base now r s
              ≡ observe_phase identify memory_port memory_active details_base r.id phase now s =
            rw (handle_status, q, b) refl in
          subst (Guarded scope_status_write r s) (sym e) (
            observe_phase-Touches r.id phase now s,
            λ c. (ident, scoped_job-IsBearer identify scope_status_write r ident q),
          )
    ]
  ]
