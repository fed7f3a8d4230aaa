-- ===== src/Controller/Reconcile.antt =====
-- internal/runtime/controller/jobrun_controller.go: `Reconcile`. What the API server and the
-- durable store answer is a `Cluster`; what `Reconcile` writes is the list of its calls, in order.
use forgelet.Prelude.{
  ℕ, Bool, false, not, ◌||◌, ◌&&◌, Option, none, some, List, [], ◌∷◌, ◌++◌, Text, text, text_key,
  is, is_empty, is_none, ltb, if◌then◌else◌, ◌⊎◌, inl, inr,
}
use forgelet.Run.Records.{JobRunId, Time, ObservedPhase}
use forgelet.Controller.Objects.{
  JobRun, Condition, RunnerClass, Pod, NewPod, phase_running, phase_succeeded, phase_failed,
  pod_suffix, terminal, phase_rank, map_pod_phase, to_model_phase, is_cr_name, build_pod,
}

-- The kinds of error that the code tells apart.
pub data ApiError : Type 0 where
  not_found already_exists api_error : ApiError

-- `find` and `set` are `FindStatusCondition` and `SetStatusCondition` for the type `Ready`; a call
-- that writes answers with an error or none.
pub record Cluster (C R : Type 0) : Type 0 where
  pub find : C → Option Condition
  pub set : Condition → C → C
  pub get_job_run : JobRun C ⊎ ApiError
  pub get_class : Text → RunnerClass R ⊎ ApiError
  pub get_pod : Text → Pod ⊎ ApiError
  pub owner_refused : Bool
  pub update_status : JobRun C → Option ApiError
  pub create_pod : NewPod R → Option ApiError
  pub project : JobRunId → ObservedPhase → Time → Option ApiError

pub data Call (C R : Type 0) : Type 0 where
  updated : JobRun C → Call C R
  created : NewPod R → Call C R
  projected : JobRunId → ObservedPhase → Time → Call C R

pub data ReconcileError : Type 0 where
  get_job_run_failed bad_name get_class_failed get_pod_failed update_failed : ReconcileError
  owner_failed create_failed no_plan_id project_failed : ReconcileError

-- `requeue_after` counts seconds.
pub data Reconciled : Type 0 where
  done : Reconciled
  requeue_after : ℕ → Reconciled
  refused : ReconcileError → Reconciled

abbrev pub same_condition : Condition → Text → Text → Text → Bool
same_condition c status reason message =
    is c.status status && is c.reason reason && is c.message message

abbrev pub ready : {C : Type 0} → JobRun C → Text → Text → Text → Condition
ready jr status reason message = record {
  status = status;
  reason = reason;
  message = message;
  observed_generation = jr.generation;
}

-- The first time of an event stays.
abbrev pub first_time : Option Time → Time → Option Time
first_time none now = some now
first_time (some t) now = some t

-- `changed` of `observePod`.
unfoldable pub is_changed : {C : Type 0} → JobRun C → Pod → Bool
is_changed jr pod =
    not (is jr.phase (map_pod_phase pod.phase))
    || not (is jr.pod_name pod.name)
    || not (is jr.pod_uid pod.uid)

module _ {C R : Type 0} (cluster : Cluster C R) where
  -- `updateConditions`, with the calls and whether it failed.
  unfoldable pub update_conditions : JobRun C → Text → Text → Text → List (Call C R) × Bool
  update_conditions jr status reason message =
      let jr' = record jr {
        conditions = cluster.set (ready jr status reason message) jr.conditions;
      } in
      let written : List (Call C R) × Bool =
        (updated jr' ∷ [], not (is_none (cluster.update_status jr'))) in
      elim (cluster.find jr.conditions) [
        | none ↦ written
        | some c ↦ if same_condition c status reason message then ([], false) else written
      ]

  -- The status that `observePod` writes.
  unfoldable pub observed : JobRun C → Pod → Time → JobRun C
  observed jr pod now =
      let phase = map_pod_phase pod.phase in
      let ended = is phase phase_succeeded || is phase phase_failed in
      record jr {
        phase = phase;
        pod_name = pod.name;
        pod_uid = pod.uid;
        started_at =
            if is phase phase_running || ended then first_time jr.started_at now else jr.started_at;
        finished_at = if ended then first_time jr.finished_at now else jr.finished_at;
        conditions =
            cluster.set
              (ready jr (text "False") (text "Progressing") (text "observed phase " ++ phase))
              jr.conditions;
      }

  -- `observePod` from the update of the status on.
  unfoldable pub project_phase : JobRun C → Text → Time → List (Call C R) × Reconciled
  project_phase jr phase now =
      if not (is_none (cluster.update_status jr))
      then (updated jr ∷ [], refused update_failed)
      else (if is_empty jr.spec.plan_id then (updated jr ∷ [], refused no_plan_id) else (
        updated jr ∷ projected jr.spec.plan_id (to_model_phase phase) now ∷ [],
        if is_none (cluster.project jr.spec.plan_id (to_model_phase phase) now)
            then done
            else refused project_failed,
      ))

  unfoldable pub observe_pod : JobRun C → Pod → Time → List (Call C R) × Reconciled
  unfolding project_phase
  observe_pod jr pod now =
      if ltb (phase_rank (map_pod_phase pod.phase)) (phase_rank jr.phase)
      then ([], done)
      else (if not (is_changed jr pod)
          then ([], done)
          else project_phase (observed jr pod now) (map_pod_phase pod.phase) now)

  -- `Reconcile` when there is no pod.
  unfoldable pub ensure_pod : JobRun C → RunnerClass R → List (Call C R) × Reconciled
  unfolding update_conditions
  ensure_pod jr class =
      let (calls, broken) =
        update_conditions jr (text "True") (text "Progressing") (text "creating primary pod") in
      let pod = build_pod jr class in
      if terminal jr.phase
      then ([], done)
      else (if broken
          then (calls, refused update_failed)
          else (if cluster.owner_refused then (calls, refused owner_failed) else (
            calls ++ created pod ∷ [],
            elim (cluster.create_pod pod) [
              | none ↦ done
              | some e ↦ elim e [
                | already_exists ↦ requeue_after 1
                | not_found ↦ refused create_failed
                | api_error ↦ refused create_failed
              ]
            ],
          )))

  -- `Reconcile` when there is no runner class.
  unfoldable pub await_class : (Text → Text) → JobRun C → List (Call C R) × Reconciled
  unfolding update_conditions
  await_class quote jr =
      let (calls, broken) =
        update_conditions jr (text "False") (text "RunnerClassMissing")
          (text "RunnerClass " ++ quote jr.spec.runner_class ++ text " not found") in
      (calls, if broken then refused update_failed else requeue_after 30)

  -- `Reconcile` from the lookup of the pod on.
  unfoldable pub with_class : JobRun C → RunnerClass R → Time → List (Call C R) × Reconciled
  unfolding ensure_pod observe_pod
  with_class jr class now = elim (cluster.get_pod (jr.name ++ pod_suffix)) [
    | inl pod ↦ observe_pod jr pod now
    | inr e ↦ elim e [
      | not_found ↦ ensure_pod jr class
      | already_exists ↦ ([], refused get_pod_failed)
      | api_error ↦ ([], refused get_pod_failed)
    ]
  ]

  unfoldable pub reconcile : (Text → Text) → Time → List (Call C R) × Reconciled
  unfolding with_class await_class
  reconcile quote now = elim cluster.get_job_run [
    | inr e ↦ elim e [
      | not_found ↦ ([], done)
      | already_exists ↦ ([], refused get_job_run_failed)
      | api_error ↦ ([], refused get_job_run_failed)
    ]
    | inl jr ↦
        if not (is_cr_name jr.name)
        then ([], refused bad_name)
        else elim (cluster.get_class jr.spec.runner_class) [
          | inl class ↦ with_class jr class now
          | inr e ↦ elim e [
            | not_found ↦ await_class quote jr
            | already_exists ↦ ([], refused get_class_failed)
            | api_error ↦ ([], refused get_class_failed)
          ]
        ]
  ]
