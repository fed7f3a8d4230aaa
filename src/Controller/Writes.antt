-- ===== src/Controller/Writes.antt =====
-- What a reconciliation may write, and that it comes to rest.
use forgelet.Prelude.{
  ℕ, true, false, some, List, [], ◌∷◌, ◌++◌, Text, text, text_key, Text-discrete, lookup, is,
  is_empty, is_none, ltb, inl, inr, ◌≡◌, refl, All, Bool-cases, Option-cases, Result-cases, if_pos,
  Key, arith,
}
use forgelet.Run.Records.{Time}
use forgelet.Controller.Objects.{
  JobRun, RunnerClass, Pod, pod_suffix, job_run_label, terminal, phase_rank, map_pod_phase,
  to_model_phase, is_cr_name, build_pod,
}
use forgelet.Controller.Reconcile.{
  not_found, already_exists, api_error, Cluster, Call, updated, created, projected, done,
  update_conditions, observed, is_changed, project_phase, observe_pod, ensure_pod, await_class,
  with_class, reconcile, same_condition,
}

is_self : {K : Type 0} ⦃key : Key K⦄ (k : K) → is k k ≡ true
is_self ⦃key⦄ k = if_pos (key.dec k k) refl true false

ltb_self : (n : ℕ) → ltb n n ≡ false
ltb_self n = ground arith

module _ {C R : Type 0} where
  -- What `Reconcile` may do when it has read `jr`.
  abbrev pub IsAllowed : Cluster C R → JobRun C → Call C R → Type 0
  IsAllowed cluster jr (updated j) =
      (j.name ≡ jr.name)
      × (j.spec ≡ jr.spec)
      × (ltb (phase_rank j.phase) (phase_rank jr.phase) ≡ false)
  IsAllowed cluster jr (created p) =
      (terminal jr.phase ≡ false)
      × (cluster.get_pod (jr.name ++ pod_suffix) ≡ inr not_found)
      × (p.name ≡ jr.name ++ pod_suffix)
      × (lookup job_run_label p.labels ≡ some jr.spec.plan_id)
  IsAllowed cluster jr (projected id phase at) =
      (id ≡ jr.spec.plan_id)
      × (is_empty id ≡ false)
      × ((pod : Pod) × (cluster.get_pod (jr.name ++ pod_suffix) ≡ inl pod)
          × (phase ≡ to_model_phase (map_pod_phase pod.phase)))

  -- After a status is written, the same pod gives nothing to write.
  abbrev pub Settled : Pod → Call C R → Type 0
  Settled pod (updated j) =
      (cluster : Cluster C R) (later : Time) → observe_pod cluster j pod later ≡ ([], done)
  Settled pod (created p) = Unit
  Settled pod (projected id phase at) = Unit

  observe_pod-observed :
      (cluster other : Cluster C R) (jr : JobRun C) (pod : Pod) (now later : Time)
      → observe_pod other (observed cluster jr pod now) pod later ≡ ([], done)
  unfolding observe_pod is_changed observed
  observe_pod-observed cluster other jr pod now later =
      let p = map_pod_phase pod.phase in
      rw (ltb_self (phase_rank p), is_self p, is_self pod.name, is_self pod.uid) refl

  project_phase-All :
      (cluster : Cluster C R) (P : Call C R → Type 0) (jr : JobRun C) (phase : Text) (now : Time)
      → P (updated jr)
      → (is_empty jr.spec.plan_id ≡ false
          → P (projected jr.spec.plan_id (to_model_phase phase) now))
      → All P (project_phase cluster jr phase now).0
  unfolding project_phase
  project_phase-All cluster P jr phase now u p =
      elim (Bool-cases (is_none (cluster.update_status jr))) [
        | inr e ↦ rw (e) (u, tt)
        | inl e ↦ elim (Bool-cases (is_empty jr.spec.plan_id)) [
          | inl f ↦ rw (e, f) (u, tt)
          | inr f ↦ rw (e, f) (u, (p f, tt))
        ]
      ]

  observe_pod-All :
      (cluster : Cluster C R) (P : Call C R → Type 0) (jr : JobRun C) (pod : Pod) (now : Time)
      → (ltb (phase_rank (map_pod_phase pod.phase)) (phase_rank jr.phase) ≡ false
          → P (updated (observed cluster jr pod now)))
      → (is_empty jr.spec.plan_id ≡ false
          → P (projected jr.spec.plan_id (to_model_phase (map_pod_phase pod.phase)) now))
      → All P (observe_pod cluster jr pod now).0
  unfolding observe_pod observed
  observe_pod-All cluster P jr pod now u p =
      elim (Bool-cases (ltb (phase_rank (map_pod_phase pod.phase)) (phase_rank jr.phase))) [
        | inl e ↦ rw (e) tt
        | inr e ↦ elim (Bool-cases (is_changed jr pod)) [
          | inr f ↦ rw (e, f) tt
          | inl f ↦
              rw (e, f)
                (project_phase-All cluster P (observed cluster jr pod now) (map_pod_phase pod.phase)
                  now (u e) p)
        ]
      ]

  -- Once the status of a JobRun is written, a later look at the same pod writes nothing and reports
  -- success, whatever the first one answered behind the update.
  pub observe_pod-Settled :
      (cluster : Cluster C R) (jr : JobRun C) (pod : Pod) (now : Time)
      → All (Settled pod) (observe_pod cluster jr pod now).0
  observe_pod-Settled cluster jr pod now =
      observe_pod-All cluster (Settled pod) jr pod now
        (λ e other later. observe_pod-observed cluster other jr pod now later) (λ e. tt)

  update_conditions-All :
      (cluster : Cluster C R) (jr : JobRun C) (status reason message : Text)
      → All (IsAllowed cluster jr) (update_conditions cluster jr status reason message).0
  unfolding update_conditions
  update_conditions-All cluster jr status reason message =
      elim (Option-cases (cluster.find jr.conditions)) [
        | inl e ↦ rw (update_conditions, e) ((refl, refl, ltb_self (phase_rank jr.phase)), tt)
        | inr (c, e) ↦ elim (Bool-cases (same_condition c status reason message)) [
          | inl f ↦ rw (update_conditions, e, f) tt
          | inr f ↦ rw (update_conditions, e, f) ((refl, refl, ltb_self (phase_rank jr.phase)), tt)
        ]
      ]

  All-snoc :
      (P : Call C R → Type 0) (cs : List (Call C R)) (c : Call C R)
      → All P cs
      → P c
      → All P (cs ++ c ∷ [])
  All-snoc P [] c h p = (p, tt)
  All-snoc P (x ∷ cs) c (h, hs) p = (h, All-snoc P cs c hs p)

  ensure_pod-All :
      (cluster : Cluster C R) (jr : JobRun C) (class : RunnerClass R)
      → cluster.get_pod (jr.name ++ pod_suffix) ≡ inr not_found
      → All (IsAllowed cluster jr) (ensure_pod cluster jr class).0
  unfolding ensure_pod build_pod lookup Text-discrete
  ensure_pod-All cluster jr class q =
      let kept =
        update_conditions-All cluster jr (text "True") (text "Progressing")
          (text "creating primary pod") in
      let broken =
        (update_conditions cluster jr (text "True") (text "Progressing")
          (text "creating primary pod")).1 in
      elim (Bool-cases (terminal jr.phase)) [
        | inl e ↦ rw (e) tt
        | inr e ↦ elim (Bool-cases broken) [
          | inl f ↦ rw (e, f) kept
          | inr f ↦ elim (Bool-cases cluster.owner_refused) [
            | inl g ↦ rw (e, f, g) kept
            | inr g ↦
                rw (e, f, g)
                  (All-snoc (IsAllowed cluster jr) _ (created (build_pod jr class)) kept
                    (e, q, refl, refl))
          ]
        ]
      ]

  with_class-All :
      (cluster : Cluster C R) (jr : JobRun C) (class : RunnerClass R) (now : Time)
      → All (IsAllowed cluster jr) (with_class cluster jr class now).0
  unfolding with_class observed
  with_class-All cluster jr class now =
      elim (Result-cases (cluster.get_pod (jr.name ++ pod_suffix))) [
        | inl (pod, e) ↦
            rw (with_class, e)
              (observe_pod-All cluster (IsAllowed cluster jr) jr pod now (λ h. (refl, refl, h))
                (λ h. (refl, h, (pod, e, refl))))
        | inr (not_found, e) ↦ rw (with_class, e) (ensure_pod-All cluster jr class e)
        | inr (already_exists, e) ↦ rw (with_class, e) tt
        | inr (api_error, e) ↦ rw (with_class, e) tt
      ]

  -- A reconciliation that has read a JobRun writes only this: a status that keeps its name and its
  -- spec and whose phase ranks no lower; a pod, when the JobRun is not terminal and the API server
  -- has no pod of the name, with that name and with the plan id in its label; and to the durable
  -- store the phase of the pod that it read, under the plan id of the JobRun, which is not empty.
  pub reconcile-IsAllowed :
      (cluster : Cluster C R) (jr : JobRun C) (quote : Text → Text) (now : Time)
      → cluster.get_job_run ≡ inl jr
      → All (IsAllowed cluster jr) (reconcile cluster quote now).0
  unfolding reconcile await_class
  reconcile-IsAllowed cluster jr quote now q = elim (Bool-cases (is_cr_name jr.name)) [
    | inr e ↦ rw (reconcile, q, e) tt
    | inl e ↦ elim (Result-cases (cluster.get_class jr.spec.runner_class)) [
      | inl (class, f) ↦ rw (reconcile, q, e, f) (with_class-All cluster jr class now)
      | inr (not_found, f) ↦
          rw (reconcile, q, e, f)
            (update_conditions-All cluster jr (text "False") (text "RunnerClassMissing")
              (text "RunnerClass " ++ quote jr.spec.runner_class ++ text " not found"))
      | inr (already_exists, f) ↦ rw (reconcile, q, e, f) tt
      | inr (api_error, f) ↦ rw (reconcile, q, e, f) tt
    ]
  ]
