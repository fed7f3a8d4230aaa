-- ===== src/Server/Replay/Later.antt =====
-- What building the plans of a delivery does to the store: some of its calls.
use forgelet.Executor.Engine.Rule.{Outcome-cases}
use forgelet.Prelude.{
  text_key, Bool, true, false, ◌||◌, Option, List, [], ◌∷◌, ◌++◌, Text, insert, is_empty, inl, inr,
  ◌≡◌, refl, sym, ap, ◌∙◌, Bool-cases, Option-cases, Result-cases,
}
use forgelet.Run.Records.{RunId, Time, Event, Delivery, ObservedPhase, JobRunRecord}
use forgelet.Memory.State.{DurableStore}
use forgelet.Memory.Read.{list_job_runs}
use forgelet.Memory.Update.{apply_observed}
use forgelet.Memory.Invariant.History.{Call, observes, step, history}
use forgelet.Scheduler.Projector.{project}
use forgelet.Scheduler.Backend.{memory_port, memory_active}
use forgelet.Expression.Value.{Float}
use forgelet.Expression.Functions.{Json}
use forgelet.Expression.Conditions.{evaluate_condition}
use forgelet.Compiler.Matrix.{JobInstance}
use forgelet.Compiler.Compile.{Step}
use forgelet.Security.Policy.{TrustLevel}
use forgelet.Provider.Action.{ActionMeta, ActionRef}
use forgelet.Server.State.{Server, has_digest, put_plan, project_observed}
use forgelet.Server.Bound.{Stored-cases, report_check-keeps}
use forgelet.Server.Source.{SourceHost, matched_jobs}
use forgelet.Server.Conditions.{is_deferred_condition, job_condition_env}
use forgelet.Server.Plans.{build_plan}
use forgelet.Server.Ingest.{instance_for, store_plan, skip_job, plan_job, plan_jobs, build_plans}

pub history-append :
    (s : DurableStore) (xs ys : List Call) → history s (xs ++ ys) ≡ history (history s xs) ys
unfolding history
history-append s [] ys = refl
history-append s (x ∷ xs) ys = history-append (step s x) xs ys

-- The store, some calls later.
abbrev pub After : DurableStore → DurableStore → Type 0
After s t = (cs : List Call) × (t ≡ history s cs)

pub After-same : (s t : DurableStore) → t ≡ s → After s t
unfolding history
After-same s t e = ([], e)

After-trans : (s t u : DurableStore) → After s t → After t u → After s u
After-trans s t u (xs, e) (ys, f) =
    (xs ++ ys, f ∙ ap (λ d. history d ys) e ∙ sym (history-append s xs ys))

module _ (N : Type 0) ⦃float : Float N⦄ ⦃json : Json N⦄ (host : SourceHost)
    (forked : Text → Option Bool) (fetch_action : Option (ActionRef → Option ActionMeta))
    (details_base : Text) where
  store_plan-After :
      (trust : TrustLevel) (ev : Event) (rec : JobRunRecord) (inst : JobInstance Step)
      (s : Server DurableStore)
      → After s.durable
          (store_plan N memory_port memory_active host forked fetch_action details_base trust ev rec
            inst s).0.durable
  unfolding store_plan put_plan
  store_plan-After trust ev rec inst s =
      elim (Option-cases (build_plan host.decimal fetch_action rec ev inst)) [
        | inl e ↦ rw (store_plan, e) (After-same s.durable s.durable refl)
        | inr (p, e) ↦ elim (Bool-cases (has_digest p)) [
          | inr f ↦ rw (store_plan, e, f) (After-same s.durable s.durable refl)
          | inl f ↦
              let t : Server DurableStore = record s {
                plans = insert p.job_run_id p s.plans;
                trust = insert rec.id trust s.trust;
              } in
              rw (store_plan, e, f)
                (After-same s.durable _ (report_check-keeps memory_port details_base rec.id t).0)
        ]
      ]

  skip_job-After :
      (now : Time) (rec : JobRunRecord) (s : Server DurableStore)
      → After s.durable
          (skip_job N memory_port memory_active host forked fetch_action details_base now rec
            s).0.durable
  unfolding skip_job project_observed project history step
  skip_job-After now rec s =
      elim (Stored-cases (apply_observed rec.id ObservedPhase.skipped now s.durable).1) [
        | inr (e, q) ↦ rw (skip_job, q) (observes rec.id ObservedPhase.skipped now ∷ [], refl)
        | inl (u, q) ↦
            let t : Server DurableStore = record s {
              durable = (apply_observed rec.id ObservedPhase.skipped now s.durable).0;
            } in
            rw (skip_job, q)
              (
                observes rec.id ObservedPhase.skipped now ∷ [],
                (report_check-keeps memory_port details_base rec.id t).0,
              )
      ]

  plan_job-After :
      (now : Time) (trust : TrustLevel) (ev : Event) (runs : List JobRunRecord) (rec : JobRunRecord)
      (inst : JobInstance Step) (s : Server DurableStore)
      → After s.durable
          (plan_job N memory_port memory_active host forked fetch_action details_base now trust ev
            runs rec inst s).0.durable
  unfolding plan_job
  plan_job-After now trust ev runs rec inst s =
      let planned = store_plan-After trust ev rec inst s in
      elim (Bool-cases (is_empty inst.condition || is_deferred_condition inst.condition)) [
        | inl e ↦ rw (plan_job, e) planned
        | inr e ↦
            elim (Outcome-cases
              (evaluate_condition (job_condition_env {N = N} ev rec runs) inst.condition)) [
                | inr (x, q) ↦ rw (plan_job, e, q) (After-same s.durable s.durable refl)
                | inl (true, q) ↦ rw (plan_job, e, q) planned
                | inl (false, q) ↦ rw (plan_job, e, q) (skip_job-After now rec s)
              ]
      ]

  plan_jobs-After :
      (now : Time) (trust : TrustLevel) (ev : Event) (jobs : List (JobInstance Step))
      (runs recs : List JobRunRecord) (s : Server DurableStore)
      → After s.durable
          (plan_jobs N memory_port memory_active host forked fetch_action details_base now trust ev
            jobs runs recs s).0.durable
  unfolding plan_jobs
  plan_jobs-After now trust ev jobs runs [] s = After-same s.durable s.durable refl
  plan_jobs-After now trust ev jobs runs (rec ∷ recs) s =
      elim (Option-cases (instance_for rec.job_key jobs)) [
        | inl e ↦ rw (plan_jobs, e) (After-same s.durable s.durable refl)
        | inr (inst, e) ↦
            let w =
              plan_job N memory_port memory_active host forked fetch_action details_base now trust
                ev runs rec inst s in
            let a = plan_job-After now trust ev runs rec inst s in
            elim (Option-cases w.1) [
              | inr (x, q) ↦ rw (plan_jobs, e, q) a
              | inl q ↦
                  rw (plan_jobs, e, q)
                    (After-trans s.durable w.0.durable _ a
                      (plan_jobs-After now trust ev jobs runs recs w.0))
            ]
      ]

  pub build_plans-After :
      (now : Time) (d : Delivery) (id : RunId) (trust : TrustLevel) (s : Server DurableStore)
      → After s.durable
          (build_plans N memory_port memory_active host forked fetch_action details_base now d id
            trust s).0.durable
  unfolding build_plans
  build_plans-After now d id trust s = elim (Result-cases (matched_jobs host d.event d.payload)) [
    | inr (e, q) ↦ rw (build_plans, q) (After-same s.durable s.durable refl)
    | inl (jobs, q) ↦ elim (Stored-cases (list_job_runs id s.durable)) [
      | inr (e, l) ↦ rw (build_plans, q, l) (After-same s.durable s.durable refl)
      | inl (runs, l) ↦ rw (build_plans, q, l) (plan_jobs-After now trust d.event jobs runs runs s)
    ]
  ]
