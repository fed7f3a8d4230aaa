-- ===== src/Server/Access.antt =====
-- internal/server/server.go: the handlers of the API that executors and the controller call. A body
-- is what decoding it as JSON gives, `none` if it is malformed. `identify` is the token verifier.
use forgelet.Prelude.{
  not, Option, none, some, List, [], ◌∷◌, Text, text, text_key, Map, lookup, insert, is_empty, map,
  cut_prefix, if◌then◌else◌, ◌⊎◌, inl, inr, ◌++◌,
}
use forgelet.Run.Records.{JobRunId, Time, ObservedPhase}
use forgelet.Memory.State.{ok, err}
use forgelet.Scheduler.Port.{DurablePort, ActivePort}
use forgelet.Security.Identity.{
  Identity, has_scope, scope_plan_read, scope_secrets_read, scope_status_write,
}
use forgelet.Security.Policy.{
  TrustLevel, Ref, authorize_execution, authorize_observation, decide_secrets,
}
use forgelet.Executor.Plan.{Plan, JobResult}
use forgelet.Server.State.{Server, get_plan, report_check, project_observed}

-- The answers that are no success, by their status codes.
pub data HttpError : Type 0 where
  bad_request unauthorized forbidden not_found internal_error : Text → HttpError

-- The headers and the path of a request, with its decoded body.
pub record Request (B : Type 0) : Type 0 where
  pub authorization : Text
  pub id : JobRunId
  pub body : Option B

-- The level of a job run, the empty one for a job run without any.
abbrev pub trust_of : {S : Type 0} → JobRunId → Server S → TrustLevel
trust_of id s = elim (lookup id s.trust) [ none ↦ TrustLevel.unset | some t ↦ t ]

abbrev pub secret_path : Ref → Text
secret_path r = r.scope ++ text "/" ++ r.name

-- The value of a secret: the store's, or else that of the options.
abbrev pub secret_value : Option (Text → Text → Option Text) → Map Text Text → Ref → Option Text
secret_value none values r = lookup (secret_path r) values
secret_value (some get) values r = elim (get r.scope r.name) [
  | some v ↦ some v
  | none ↦ lookup (secret_path r) values
]

-- The loop over the secrets that are allowed.
unfoldable pub deliver :
    Option (Text → Text → Option Text) → Map Text Text → List Ref → Map Text Text → Map Text Text
deliver store values [] out = out
deliver store values (r ∷ rs) out =
    deliver store values rs
      (elim (secret_value store values r) [ none ↦ out | some v ↦ insert (secret_path r) v out ])

module _ (identify : Text → Option Identity) where
  -- `auth`
  unfoldable pub auth : Text → Identity ⊎ HttpError
  auth header = elim (cut_prefix (text "Bearer ") header) [
    | none ↦ inr (unauthorized (text "missing bearer token"))
    | some token ↦ elim (identify token) [
      | none ↦ inr (unauthorized (text "invalid token"))
      | some id ↦ inl id
    ]
  ]

  -- `jobFromPath`, behind `auth`.
  unfoldable pub job_from_path : {B : Type 0} → Request B → Identity ⊎ HttpError
  unfolding auth
  job_from_path r = elim (auth r.authorization) [
    | inr e ↦ inr e
    | inl ident ↦
        if is_empty r.id
        then inr (bad_request (text "missing job run id"))
        else elim (authorize_execution ident r.id) [
          | some e ↦ inr (forbidden (text "identity not bound to this job run"))
          | none ↦ inl ident
        ]
  ]

  -- `jobFromPath` and the test of the scope behind it.
  unfoldable pub scoped_job : {B : Type 0} → Text → Request B → Identity ⊎ HttpError
  unfolding job_from_path
  scoped_job scope r = elim (job_from_path r) [
    | inr e ↦ inr e
    | inl ident ↦
        if not (has_scope ident scope)
        then inr (forbidden (text "missing scope " ++ scope))
        else inl ident
  ]

  unfoldable pub handle_plan : {S : Type 0} → Request (Unit {0}) → Server S → Plan ⊎ HttpError
  unfolding scoped_job get_plan
  handle_plan r s = elim (scoped_job scope_plan_read r) [
    | inr e ↦ inr e
    | inl ident ↦ elim (get_plan r.id s) [
      | none ↦ inr (not_found (text "plan not found"))
      | some p ↦ inl p
    ]
  ]

  unfoldable pub handle_secrets :
      {S : Type 0}
      → Option (Text → Text → Option Text)
      → Map Text Text
      → Request (List Ref)
      → Server S
      → Map Text Text ⊎ HttpError
  unfolding scoped_job get_plan deliver
  handle_secrets store values r s = elim (scoped_job scope_secrets_read r) [
    | inr e ↦ inr e
    | inl ident ↦ elim r.body [
      | none ↦ inr (bad_request (text "malformed request"))
      | some requested ↦ elim (get_plan r.id s) [
        | none ↦ inr (not_found (text "plan not found"))
        | some p ↦
            (let refs : List Ref =
                map (λ x. record { scope = x.scope; name = x.name }) p.secret_refs in
              inl (
                deliver store values (decide_secrets ident requested refs (trust_of r.id s)).allowed
                  []))
      ]
    ]
  ]

  module _ {S A : Type 0} (port : DurablePort S) (active : ActivePort A) (details_base : Text) where
    -- `projectObserved` and `reportCheck`, at the end of the two handlers that write.
    unfoldable pub observe_phase :
        JobRunId → ObservedPhase → Time → Server S → Server S × (Unit {0} ⊎ HttpError)
    unfolding project_observed report_check
    observe_phase id phase now s =
        let (t, r) = project_observed port active id phase now s in
        elim r [
          | err e ↦ (t, inr (internal_error (text "projection failed")))
          | ok u ↦ (report_check port details_base id t, inl tt)
        ]

    unfoldable pub handle_status :
        Time → Request JobResult → Server S → Server S × (Unit {0} ⊎ HttpError)
    unfolding scoped_job observe_phase
    handle_status now r s = elim (scoped_job scope_status_write r) [
      | inr e ↦ (s, inr e)
      | inl ident ↦ elim r.body [
        | none ↦ (s, inr (bad_request (text "malformed result")))
        | some result ↦
            observe_phase r.id
              (if result.success then ObservedPhase.succeeded else ObservedPhase.failed) now s
      ]
    ]

    unfoldable pub handle_observed :
        Time → Request ObservedPhase → Server S → Server S × (Unit {0} ⊎ HttpError)
    unfolding auth observe_phase
    handle_observed now r s = elim (auth r.authorization) [
      | inr e ↦ (s, inr e)
      | inl ident ↦
          if is_empty r.id
          then (s, inr (bad_request (text "missing job run id")))
          else elim (authorize_observation ident r.id) [
            | some e ↦ (s, inr (forbidden (text "identity may not observe this job run")))
            | none ↦ elim r.body [
              | none ↦ (s, inr (bad_request (text "malformed body")))
              | some phase ↦ observe_phase r.id phase now s
            ]
          ]
    ]
