-- ===== src/Server/Replay.antt =====
-- A delivery that comes again, over the in-memory stores.
mod Later
use mathlib.Core.Path.{subst}
use forgelet.Executor.Engine.Rule.{Outcome-cases}
use forgelet.Prelude.{
  text_key, Bool, true, false, not, ◌||◌, Option, none, List, [], ◌∷◌, ◌++◌, Text, insert, is_empty,
  inl, inr, ◌≡◌, refl, sym, ap, ◌∙◌, Bool-cases, Option-cases, Result-cases,
}
use forgelet.Run.Records.{RunId, Time, Event, Delivery, ObservedPhase, JobRunRecord}
use forgelet.Memory.State.{DurableStore}
use forgelet.Memory.Read.{list_job_runs}
use forgelet.Memory.Update.{apply_observed}
use forgelet.Memory.Invariant.{WellFormed}
use forgelet.Memory.Invariant.History.{Call, observes, step, history}
use forgelet.Scheduler.Ingestor.{Ingested, run, store_failed, compile_failed, invalid_job, ingest}
use forgelet.Scheduler.Projector.{project}
use forgelet.Scheduler.Backend.{memory_port, memory_active}
use forgelet.Scheduler.Backend.Ingest.{ingest-replay}
use forgelet.Expression.Value.{Float}
use forgelet.Expression.Functions.{Json}
use forgelet.Expression.Conditions.{evaluate_condition}
use forgelet.Compiler.Matrix.{JobInstance}
use forgelet.Compiler.Compile.{Step}
use forgelet.Security.Policy.{TrustLevel}
use forgelet.Provider.Action.{ActionMeta, ActionRef}
use forgelet.Server.State.{Server, has_digest, put_plan, project_observed}
use forgelet.Server.Bound.{Stored-cases, report_check-keeps}
use forgelet.Server.Source.{SourceHost, matched_jobs, source_compile}
use forgelet.Server.Conditions.{is_deferred_condition, job_condition_env}
use forgelet.Server.Plans.{build_plan}
use forgelet.Server.Ingest.{
  instance_for, trust_for, store_plan, skip_job, plan_job, plan_jobs, build_plans, after_ingest,
  server_ingest,
}
use forgelet.Server.Replay.Later.{history-append, After, After-same, build_plans-After}

module _ (N : Type 0) ⦃float : Float N⦄ ⦃json : Json N⦄ (host : SourceHost)
    (forked : Text → Option Bool) (fetch_action : Option (ActionRef → Option ActionMeta))
    (details_base : Text) where
  Ingest-fresh :
      (now : Time) (d : Delivery) (s : Server DurableStore) (i : Ingested) (r : RunId)
      → (after_ingest N memory_port memory_active host forked fetch_action details_base now d s i).1
        ≡ run r true
      → i ≡ run r true
  unfolding after_ingest
  Ingest-fresh now d s (run id fresh) r h = elim (Bool-cases (is_empty id || not fresh)) [
    | inl e ↦ (rw (after_ingest, e) at h)
    | inr e ↦ (rw (after_ingest, e) at h)
  ]
  Ingest-fresh now d s (store_failed e) r h = h
  Ingest-fresh now d s compile_failed r h = h
  Ingest-fresh now d s (invalid_job e) r h = h

  after_ingest-After :
      (now : Time) (d : Delivery) (s : Server DurableStore) (i : Ingested)
      → After s.durable
          (after_ingest N memory_port memory_active host forked fetch_action details_base now d s
            i).0.durable
  unfolding after_ingest
  after_ingest-After now d s (run id fresh) = elim (Bool-cases (is_empty id || not fresh)) [
    | inl e ↦ rw (after_ingest, e) (After-same s.durable s.durable refl)
    | inr e ↦
        rw (after_ingest, e)
          (build_plans-After N host forked fetch_action details_base now d id (trust_for forked d)
            s)
  ]
  after_ingest-After now d s (store_failed e) = After-same s.durable s.durable refl
  after_ingest-After now d s compile_failed = After-same s.durable s.durable refl
  after_ingest-After now d s (invalid_job e) = After-same s.durable s.durable refl

  -- A run that is not created is passed on as it is.
  after_ingest-known :
      (now : Time) (d : Delivery) (s : Server DurableStore) (r : RunId)
      → after_ingest N memory_port memory_active host forked fetch_action details_base now d s
          (run r false)
        ≡ (s, run r false, none)
  unfolding after_ingest
  after_ingest-known now d s r = elim (Bool-cases (is_empty r)) [
    | inl e ↦ rw (after_ingest, e) refl
    | inr e ↦ rw (after_ingest, e) refl
  ]

  -- Once `Ingest` of the server has made a run, every later one for the same delivery, after any
  -- calls of the store and whatever the repository holds by then, answers with that run, not
  -- created, and changes neither the store nor a plan, a trust level or a report. This is so even
  -- if the first one failed to build the plans: they are not built again.
  pub server_ingest-replay :
      (first later : SourceHost) (d d' : Delivery) (clock clock' now now' : Time)
      (s u : Server DurableStore) (r : RunId) (cs : List Call)
      → WellFormed s.durable
      → (server_ingest N memory_port memory_active host forked fetch_action details_base first d
          clock now s).1
        ≡ run r true
      → d'.key ≡ d.key
      → u.durable
        ≡ history
            (server_ingest N memory_port memory_active host forked fetch_action details_base first d
              clock now s).0.durable
            cs
      → server_ingest N memory_port memory_active host forked fetch_action details_base later d'
          clock' now' u
        ≡ (u, run r false, none)
  unfolding server_ingest
  server_ingest-replay first later d d' clock clock' now now' s u r cs w h k e =
      let q = ingest memory_port (source_compile first) d clock now s.durable in
      let i = Ingest-fresh now d (record s { durable = q.0 }) q.1 r h in
      let (xs, a) = after_ingest-After now d (record s { durable = q.0 }) q.1 in
      let same : u.durable ≡ history q.0 (xs ++ cs) =
        e ∙ ap (λ x. history x cs) a ∙ sym (history-append q.0 xs cs) in
      let again : ingest memory_port (source_compile later) d' clock' now' u.durable
          ≡ (u.durable, run r false) =
        subst
          (λ (x : DurableStore).
            ingest memory_port (source_compile later) d' clock' now' x ≡ (x, run r false))
          (sym same)
          (ingest-replay (source_compile first) (source_compile later) d d' clock clock' now now'
            s.durable r (xs ++ cs) w i k) in
      ap
        (λ x.
          after_ingest N memory_port memory_active host forked fetch_action details_base now' d'
            (record u { durable = x.0 }) x.1)
        again
      ∙ after_ingest-known now' d' u r
