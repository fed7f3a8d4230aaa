-- ===== src/Server/Ingest.antt =====
-- internal/server/server.go: a delivery becomes a run with a plan for each job. The list of the
-- compiled jobs that the server keeps for each run is left out, since nothing reads it.
use forgelet.Prelude.{
  Bool, not, ◌||◌, Option, none, some, List, [], ◌∷◌, Text, text, text_key, insert, is, is_empty,
  if◌then◌else◌, inl, inr,
}
use forgelet.Run.Records.{RunId, Time, Event, Delivery, ObservedPhase, JobRunRecord}
use forgelet.Memory.State.{StoreError, ok, err}
use forgelet.Scheduler.Port.{DurablePort, ActivePort}
use forgelet.Scheduler.Ingestor.{Ingested, run, ingest}
use forgelet.Expression.Errors.{Outcome}
use forgelet.Expression.Errors
use forgelet.Expression.Value.{Float}
use forgelet.Expression.Functions.{Json}
use forgelet.Expression.Conditions.{evaluate_condition}
use forgelet.Compiler.Matrix.{JobInstance}
use forgelet.Compiler.Compile.{Step}
use forgelet.Security.Policy.{TrustLevel, trusted, same_repo, fork}
use forgelet.Provider.Action.{ActionMeta, ActionRef}
use forgelet.Server.State.{Server, put_plan, report_check, project_observed}
use forgelet.Server.Source.{SourceHost, SourceError, matched_jobs, source_compile}
use forgelet.Server.Conditions.{is_deferred_condition, job_condition_env}
use forgelet.Server.Plans.{build_plan}

-- `trustFor`, where `forked` is the flag that a payload has at its head's repository, `none` if the
-- payload is malformed.
unfoldable pub trust_for : (Text → Option Bool) → Delivery → TrustLevel
trust_for forked d =
    if not (is d.event.name (text "pull_request"))
    then trusted
    else elim (forked d.payload) [ none ↦ same_repo | some f ↦ if f then fork else same_repo ]

-- The errors of `buildPlans`; `planner_panic` is the index out of range in a step's name.
pub data PlanError : Type 0 where
  not_rebuilt : SourceError → PlanError
  not_listed not_skipped : StoreError → PlanError
  missing_instance invalid_condition not_stored planner_panic : Text → PlanError

-- The first instance with the key.
unfoldable pub instance_for : Text → List (JobInstance Step) → Option (JobInstance Step)
instance_for key [] = none
instance_for key (j ∷ js) = let rest = instance_for key js in if is j.key key then some j else rest

module _ {S A : Type 0} (N : Type 0) ⦃float : Float N⦄ ⦃json : Json N⦄ (port : DurablePort S)
    (active : ActivePort A) (host : SourceHost) (forked : Text → Option Bool)
    (fetch_action : Option (ActionRef → Option ActionMeta)) (details_base : Text) where
  -- The plan of one job, stored and reported.
  unfoldable pub store_plan :
      TrustLevel → Event → JobRunRecord → JobInstance Step → Server S → Server S × Option PlanError
  unfolding build_plan put_plan report_check
  store_plan trust ev rec inst s = elim (build_plan host.decimal fetch_action rec ev inst) [
    | none ↦ (s, some (planner_panic rec.job_key))
    | some p ↦ elim (put_plan p s) [
      | none ↦ (s, some (not_stored rec.job_key))
      | some t ↦ (
        report_check port details_base rec.id (record t { trust = insert rec.id trust t.trust }),
        none,
      )
    ]
  ]

  -- A job whose condition does not hold.
  unfoldable pub skip_job : Time → JobRunRecord → Server S → Server S × Option PlanError
  unfolding project_observed report_check
  skip_job now rec s =
      let (t, r) = project_observed port active rec.id ObservedPhase.skipped now s in
      elim r [
        | err e ↦ (t, some (not_skipped e))
        | ok u ↦ (report_check port details_base rec.id t, none)
      ]

  -- A round of the loop over the jobs of the run, behind the search for the instance.
  unfoldable pub plan_job :
      Time
      → TrustLevel
      → Event
      → List JobRunRecord
      → JobRunRecord
      → JobInstance Step
      → Server S
      → Server S × Option PlanError
  unfolding store_plan skip_job evaluate_condition job_condition_env is_deferred_condition
  plan_job now trust ev runs rec inst s =
      let planned = store_plan trust ev rec inst s in
      if is_empty inst.condition || is_deferred_condition inst.condition
      then planned
      else elim (evaluate_condition (job_condition_env {N = N} ev rec runs) inst.condition) [
        | Errors.err e ↦ (s, some (invalid_condition rec.job_key))
        | Errors.ok holds ↦ if holds then planned else skip_job now rec s
      ]

  -- The loop over the jobs of the run.
  unfoldable pub plan_jobs :
      Time
      → TrustLevel
      → Event
      → List (JobInstance Step)
      → List JobRunRecord
      → List JobRunRecord
      → Server S
      → Server S × Option PlanError
  unfolding plan_job instance_for
  plan_jobs now trust ev jobs runs [] s = (s, none)
  plan_jobs now trust ev jobs runs (rec ∷ recs) s = elim (instance_for rec.job_key jobs) [
    | none ↦ (s, some (missing_instance rec.job_key))
    | some inst ↦
        (let (t, r) = plan_job now trust ev runs rec inst s in
          elim r [ some e ↦ (t, some e) | none ↦ plan_jobs now trust ev jobs runs recs t ])
  ]

  unfoldable pub build_plans :
      Time → Delivery → RunId → TrustLevel → Server S → Server S × Option PlanError
  unfolding plan_jobs matched_jobs
  build_plans now d id trust s = elim (matched_jobs host d.event d.payload) [
    | inr e ↦ (s, some (not_rebuilt e))
    | inl jobs ↦ elim (port.list_job_runs id s.durable) [
      | err e ↦ (s, some (not_listed e))
      | ok runs ↦ plan_jobs now trust d.event jobs runs runs s
    ]
  ]

  -- `Ingest`, from the answer of the ingestor on.
  unfoldable pub after_ingest :
      Time → Delivery → Server S → Ingested → Server S × Ingested × Option PlanError
  unfolding build_plans trust_for
  after_ingest now d s (run id fresh) =
      if is_empty id || not fresh
      then (s, run id fresh, none)
      else (let (t, e) = build_plans now d id (trust_for forked d) s in (t, run id fresh, e))
  after_ingest now d s r = (s, r, none)

  -- `Ingest`. The first clock is the store's, the second the ingestor's and the server's. The source
  -- is read twice: `first` is what it answers to the ingestor, `host` what it answers afterwards.
  unfoldable pub server_ingest :
      SourceHost → Delivery → Time → Time → Server S → Server S × Ingested × Option PlanError
  unfolding after_ingest ingest source_compile
  server_ingest first d clock now s =
      let (t, r) = ingest port (source_compile first) d clock now s.durable in
      after_ingest now d (record s { durable = t }) r
