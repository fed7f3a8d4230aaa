-- ===== src/Tests/Controller.antt =====
-- Reconciliations at concrete inputs.
use forgelet.Prelude.{false, Option, none, some, [], Text, text, inl, inr, refl, All}
use forgelet.Controller.Objects.{JobRun, Condition, RunnerClass, Pod, pod_running}
use forgelet.Controller.Reconcile.{Cluster, not_found, api_error, reconcile, observe_pod}
use forgelet.Controller.Writes.{IsAllowed, Settled, reconcile-IsAllowed, observe_pod-Settled}

abbrev job_run : JobRun (Option Condition)
job_run = record {
  name = text "jobrun-01abc";
  namespace = text "ci";
  generation = 1;
  spec = record {
    run_id = text "run-1";
    job_key = text "test";
    runner_class = text "small";
    plan_id = text "01ABC";
    plan_digest = text "d1";
    attempt = 1;
  };
  phase = text "pending";
  pod_name = [];
  pod_uid = [];
  started_at = none;
  finished_at = none;
  conditions = none;
}

abbrev small : RunnerClass Text
small = record { image = text "executor:1"; node_selector = []; resources = text "1 cpu" }

abbrev pod : Pod
pod = record { name = text "jobrun-01abc-pod"; uid = text "u1"; phase = pod_running }

abbrev fresh : Cluster (Option Condition) Text
fresh = record {
  find = λ c. c;
  set = λ c old. some c;
  get_job_run = inl job_run;
  get_class = λ name. inl small;
  get_pod = λ name. inr not_found;
  owner_refused = false;
  update_status = λ j. none;
  create_pod = λ p. none;
  project = λ id phase at. none;
}

-- The durable store does not answer.
abbrev cut_off : Cluster (Option Condition) Text
cut_off = record fresh { get_pod = λ name. inl pod; project = λ id phase at. some api_error }

abbrev as_is : Text → Text
as_is s = s

reconcile-IsAllowed_example : All (IsAllowed cut_off job_run) (reconcile cut_off as_is 5).0
reconcile-IsAllowed_example = reconcile-IsAllowed cut_off job_run as_is 5 refl

observe_pod-Settled_example :
    All (Settled {C = Option Condition} {R = Text} pod) (observe_pod cut_off job_run pod 5).0
observe_pod-Settled_example = observe_pod-Settled cut_off job_run pod 5
