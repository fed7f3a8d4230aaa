-- ===== src/Controller/Objects.antt =====
-- The Kubernetes objects of internal/runtime/controller/jobrun_controller.go: api/v1alpha1, and the
-- pod that `buildPod` writes. `C` stands for the list of the conditions of a status and `R` for the
-- resources of a container, which only the Kubernetes libraries look into.
use forgelet.Prelude.{
  ℕ, Bool, true, false, ◌||◌, Option, List, [], ◌∷◌, ◌++◌, Text, text, text_key, Map, is, ltb,
  length, has_prefix, if◌then◌else◌, not,
}
use forgelet.Run.Records.{Time, ObservedPhase, pending, running, succeeded, failed}

pub record JobRunSpec : Type 0 where
  pub run_id : Text
  pub job_key : Text
  pub runner_class : Text
  pub plan_id : Text
  pub plan_digest : Text
  pub attempt : ℕ

-- A JobRun object with its name, its namespace, its generation and the fields of its status.
pub record JobRun (C : Type 0) : Type 0 where
  pub name : Text
  pub namespace : Text
  pub generation : ℕ
  pub spec : JobRunSpec
  pub phase : Text
  pub pod_name : Text
  pub pod_uid : Text
  pub started_at : Option Time
  pub finished_at : Option Time
  pub conditions : C

-- A condition of the type `Ready`.
pub record Condition : Type 0 where
  pub status : Text
  pub reason : Text
  pub message : Text
  pub observed_generation : ℕ

pub record RunnerClass (R : Type 0) : Type 0 where
  pub image : Text
  pub node_selector : Map Text Text
  pub resources : R

-- The phases of a pod.
pub data PodPhase : Type 0 where
  pod_pending pod_running pod_succeeded pod_failed pod_unknown : PodPhase

pub record Pod : Type 0 where
  pub name : Text
  pub uid : Text
  pub phase : PodPhase

pub record VolumeMount : Type 0 where
  pub volume : Text
  pub mount_path : Text
  pub read_only : Bool

pub data Volume : Type 0 where
  empty_dir : Text → Volume
  -- A projected token: the volume, the audience, the seconds, the file and the mode.
  projected_token : Text → Text → ℕ → Text → ℕ → Volume

-- The pod of a job, which has one container.
pub record NewPod (R : Type 0) : Type 0 where
  pub name : Text
  pub namespace : Text
  pub labels : Map Text Text
  pub restart_policy : Text
  pub automount_token : Bool
  pub service_account : Text
  pub node_selector : Map Text Text
  pub container : Text
  pub image : Text
  pub command : List Text
  pub args : List Text
  pub resources : R
  pub working_dir : Text
  pub mounts : List VolumeMount
  pub volumes : List Volume

abbrev pub phase_pending : Text
phase_pending = text "pending"

abbrev pub phase_running : Text
phase_running = text "running"

abbrev pub phase_succeeded : Text
phase_succeeded = text "succeeded"

abbrev pub phase_failed : Text
phase_failed = text "failed"

abbrev pub executor_service_account : Text
executor_service_account = text "forgelet-executor"

abbrev pub control_plane_audience : Text
control_plane_audience = text "forgelet-control-plane"

abbrev pub pod_suffix : Text
pod_suffix = text "-pod"

abbrev pub workspace_volume : Text
workspace_volume = text "workspace"

abbrev pub token_volume : Text
token_volume = text "control-plane-token"

abbrev pub job_run_label : Text
job_run_label = text "ci.forgelet.dev/jobrun-id"

-- `Terminal`, of the phase.
abbrev pub terminal : Text → Bool
terminal p = is p phase_succeeded || is p phase_failed

unfoldable pub phase_rank : Text → ℕ
phase_rank p =
    if is p phase_succeeded || is p phase_failed then 2 else (if is p phase_running then 1 else 0)

unfoldable pub map_pod_phase : PodPhase → Text
map_pod_phase pod_running = phase_running
map_pod_phase pod_succeeded = phase_succeeded
map_pod_phase pod_failed = phase_failed
map_pod_phase _ = phase_pending

unfoldable pub to_model_phase : Text → ObservedPhase
to_model_phase p =
    if is p phase_running
    then running
    else (if is p phase_succeeded
        then succeeded
        else (if is p phase_failed then failed else pending))

-- Whether `IDFromCRName` finds an identifier in a name.
unfoldable pub is_cr_name : Text → Bool
is_cr_name name =
    if not (ltb (length (text "jobrun-")) (length name))
    then false
    else has_prefix (text "jobrun-") name

unfoldable pub build_pod : {C R : Type 0} → JobRun C → RunnerClass R → NewPod R
build_pod jr class = record {
  name = jr.name ++ pod_suffix;
  namespace = jr.namespace;
  labels = (text "ci.forgelet.dev/app", text "executor") ∷ (job_run_label, jr.spec.plan_id) ∷ [];
  restart_policy = text "Never";
  automount_token = false;
  service_account = executor_service_account;
  node_selector = class.node_selector;
  container = text "job";
  image = class.image;
  command = text "/ci/executor" ∷ [];
  args = (text "--jobrun=" ++ jr.spec.plan_id) ∷ [];
  resources = class.resources;
  working_dir = text "/workspace";
  mounts =
      record { volume = workspace_volume; mount_path = text "/workspace"; read_only = false }
      ∷ record { volume = token_volume; mount_path = text "/var/run/forgelet"; read_only = true }
      ∷ [];
  volumes =
      empty_dir workspace_volume
      ∷ projected_token token_volume control_plane_audience 3600 (text "token") 420
      ∷ [];
}
