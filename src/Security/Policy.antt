-- ===== src/Security/Policy.antt =====
-- internal/security/policy/policy.go: who may act on a job run, and which secrets are delivered.
pub mod Secrets
use forgelet.Prelude.{
  Bool, true, false, not, ◌||◌, Option, none, some, List, [], ◌∷◌, ◌++◌, Text, is, any, map,
  if◌then◌else◌, Key, Text-discrete, text_key,
}
use forgelet.Run.Records.{JobRunId}
use forgelet.Security.Identity.{Identity, has_scope, scope_secrets_read, scope_observed_write}

-- `unset` is the empty string, the zero value of the Go type.
pub data TrustLevel : Type 0 where
  unset trusted same_repo fork : TrustLevel

unfoldable pub TrustLevel-discrete : Discrete TrustLevel
TrustLevel-discrete = hlevel

instance abbrev pub trust_key : Key TrustLevel
trust_key = record { dec = TrustLevel-discrete }

pub record Ref : Type 0 where
  pub scope : Text
  pub name : Text

unfoldable pub Ref-discrete : Discrete Ref
Ref-discrete = hlevel Text-discrete

instance abbrev pub ref_key : Key Ref
ref_key = record { dec = Ref-discrete }

-- `ErrNotAuthorized`, with the bound and the requested job run.
pub record NotAuthorized : Type 0 where
  pub bound : JobRunId
  pub requested : JobRunId

unfoldable pub authorize_execution : Identity → JobRunId → Option NotAuthorized
authorize_execution id job_run =
    if not (is id.job_run_id job_run)
    then some (record { bound = id.job_run_id; requested = job_run })
    else none

unfoldable pub authorize_observation : Identity → JobRunId → Option NotAuthorized
authorize_observation id job_run =
    if has_scope id scope_observed_write
    then none
    else (if is id.job_run_id job_run
        then none
        else some (record { bound = id.job_run_id; requested = job_run }))

pub data Reason : Type 0 where
  lacks_scope fork_run not_in_plan : Reason

pub record DeniedRef : Type 0 where
  pub ref : Ref
  pub reason : Reason

pub record Decision : Type 0 where
  pub allowed : List Ref
  pub denied : List DeniedRef

unfoldable pub deny : Ref → Reason → Decision → Decision
deny r reason d = record d { denied = d.denied ++ record { ref = r; reason = reason } ∷ [] }

unfoldable pub deny_all : Reason → List Ref → Decision → Decision
unfolding deny
deny_all reason [] d = d
deny_all reason (r ∷ rs) d = deny_all reason rs (deny r reason d)

-- One round of the last loop; the set of planned references is the list itself.
unfoldable pub decide_one : List Ref → Ref → Decision → Decision
unfolding deny
decide_one plan_refs r d =
    if any (λ p. is p r) plan_refs
    then record d { allowed = d.allowed ++ r ∷ [] }
    else deny r not_in_plan d

unfoldable pub decide_each : List Ref → List Ref → Decision → Decision
unfolding decide_one
decide_each plan_refs [] d = d
decide_each plan_refs (r ∷ rs) d = decide_each plan_refs rs (decide_one plan_refs r d)

unfoldable pub decide_secrets : Identity → List Ref → List Ref → TrustLevel → Decision
unfolding deny_all decide_each
decide_secrets id requested plan_refs trust =
    let d : Decision = record { allowed = []; denied = [] } in
    if not (has_scope id scope_secrets_read)
    then deny_all lacks_scope requested d
    else (if is trust fork
        then deny_all fork_run requested d
        else decide_each plan_refs requested d)
