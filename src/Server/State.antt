-- ===== src/Server/State.antt =====
-- internal/server/server.go and support.go: what the server keeps, and what its handlers share. The
-- tokens of traces, the metrics and the log are left out.
use forgelet.Prelude.{
  Bool, true, false, Option, none, some, List, [], ◌∷◌, ◌++◌, Text, text_key, Map, lookup, insert,
  is_empty, if◌then◌else◌, inl, inr, ◌||◌,
}
use forgelet.Run.Records.{JobRunId, Time, ObservedPhase, RunRecord}
use forgelet.Memory.State.{Result, ok, err}
use forgelet.Scheduler.Port.{DurablePort, ActivePort}
use forgelet.Scheduler.Projector.{project}
use forgelet.Security.Policy.{TrustLevel}
use forgelet.Executor.Plan.{Plan}
use forgelet.Report.{Check, map_job_run}

-- `Server`, over the states `S` of the durable store, with the checks that were reported.
pub record Server (S : Type 0) : Type 0 where
  pub durable : S
  pub plans : Map JobRunId Plan
  pub trust : Map JobRunId TrustLevel
  pub reported : List (RunRecord × Check)

-- Whether the digest of a plan computes, which `Put` asks for: its encoding as JSON does not fail.
unfoldable pub has_digest : Plan → Bool
has_digest p = if is_empty p.job_run_id || is_empty p.steps then false else true

module _ {S : Type 0} where
  -- `planStore.Put`
  unfoldable pub put_plan : Plan → Server S → Option (Server S)
  unfolding has_digest
  put_plan p s =
      if has_digest p then some (record s { plans = insert p.job_run_id p s.plans }) else none

  -- `planStore.Get`
  unfoldable pub get_plan : JobRunId → Server S → Option Plan
  get_plan id s = lookup id s.plans

module _ {S A : Type 0} (port : DurablePort S) (active : ActivePort A) where
  unfoldable pub project_observed :
      JobRunId → ObservedPhase → Time → Server S → Server S × Result (Unit {0})
  unfolding project
  project_observed id phase now s =
      let (d, r) = project port active id phase now s.durable in (record s { durable = d }, r)

module _ {S : Type 0} (port : DurablePort S) (details_base : Text) where
  -- `reportCheck`; what fails on the way is only logged.
  unfoldable pub report_check : JobRunId → Server S → Server S
  unfolding map_job_run
  report_check id s = elim (port.get_job_run id s.durable) [
    | err e ↦ s
    | ok job ↦ elim (port.get_run job.run_id s.durable) [
      | err e ↦ s
      | ok run ↦ elim (map_job_run job details_base) [
        | inr e ↦ s
        | inl check ↦ record s { reported = s.reported ++ (run, check) ∷ [] }
      ]
    ]
  ]
