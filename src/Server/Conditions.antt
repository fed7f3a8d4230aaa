-- ===== src/Server/Conditions.antt =====
-- internal/server/server.go: the conditions of jobs, and what they can see.
use forgelet.Prelude.{
  Bool, List, [], ◌∷◌, ◌++◌, any, Text, text, text_key, is, contains_text, to_lower, if◌then◌else◌,
}
use forgelet.Run.JobStatus.{JobRunStatus, job_status_key}
use forgelet.Run.Records.{Event, JobRunRecord}
use forgelet.Expression.Value.{Value, Fields, no_fields, field, str, obj}
use forgelet.Expression.Env.{Env, with_context, with_job_status}
use forgelet.Executor.Context.{new_env}

-- `isDeferredCondition`
unfoldable pub is_deferred_condition : Text → Bool
unfolding contains_text to_lower
is_deferred_condition cond =
    any (λ part. contains_text part (to_lower cond))
      (text "needs." ∷ text "success(" ∷ text "failure(" ∷ text "cancelled(" ∷ text "always(" ∷ [])

unfoldable pub github_result_name : JobRunStatus → Text
github_result_name JobRunStatus.succeeded = text "success"
github_result_name JobRunStatus.failed = text "failure"
github_result_name JobRunStatus.cancelled = text "cancelled"
github_result_name JobRunStatus.skipped = text "skipped"
github_result_name _ = text "pending"

-- The inner loop over the jobs of the run, which stops at the first that failed under the key.
unfoldable pub status_after : Text → List JobRunRecord → Text → Text
status_after key [] status = status
status_after key (r ∷ rs) status =
    let rest = status_after key rs status in
    if is r.job_key key
    then (if is r.status JobRunStatus.failed
        then text "failure"
        else (if is r.status JobRunStatus.cancelled then text "cancelled" else rest))
    else rest

-- The loop over the dependencies: the last one that failed decides.
unfoldable pub dependency_status : List Text → List JobRunRecord → Text → Text
unfolding status_after
dependency_status [] runs status = status
dependency_status (key ∷ keys) runs status =
    dependency_status keys runs (status_after key runs status)

module _ {N : Type 0} where
  unfoldable pub github_context_value : Event → Value N
  github_context_value ev = obj (
      field (text "event_name") (str ev.name) (
        field (text "ref") (str ev.ref) (
          field (text "sha") (str ev.sha) (
            field (text "actor") (str ev.actor) (
              field (text "repository")
                (obj (
                  field (text "owner") (str ev.repository.owner) (
                    field (text "name") (str ev.repository.name) (
                      field (text "full_name")
                        (str (ev.repository.owner ++ text "/" ++ ev.repository.name)) no_fields))))
                no_fields)))))

  -- The results of the jobs of a run, whose keys differ.
  unfoldable pub needs_fields : List JobRunRecord → Fields N
  unfolding github_result_name
  needs_fields [] = no_fields
  needs_fields (r ∷ rs) =
      field r.job_key (obj (field (text "result") (str (github_result_name r.status)) no_fields))
        (needs_fields rs)

  unfoldable pub job_condition_env : Event → JobRunRecord → List JobRunRecord → Env N
  unfolding dependency_status github_context_value needs_fields with_context with_job_status
  job_condition_env ev rec runs =
      let status = dependency_status rec.depends_on runs (text "success") in
      with_job_status status (
        with_context (text "job") (obj (field (text "status") (str status) no_fields)) (
          with_context (text "needs") (obj (needs_fields runs))
            (with_context (text "github") (github_context_value ev) new_env)))
