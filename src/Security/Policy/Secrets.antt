-- ===== src/Security/Policy/Secrets.antt =====
-- The secret decision: what is allowed and what is denied.
use forgelet.Prelude.{
  ◌≡◌, ◌∙◌, ap, Bool, not, List, [], ◌∷◌, ◌++◌, is, any, keep, map, if◌then◌else◌, arith,
}
use mathlib.Core.List.{append-nil, append_assoc}
use forgelet.Security.Identity.{Identity, has_scope, scope_secrets_read}
use forgelet.Security.Policy.{
  TrustLevel, fork, trust_key, Ref, ref_key, Reason, lacks_scope, fork_run, not_in_plan, DeniedRef,
  Decision, deny, deny_all, decide_one, decide_each, decide_secrets,
}

abbrev pub denied_as : Reason → Ref → DeniedRef
denied_as reason r = record { ref = r; reason = reason }

deny_all_lem :
    (reason : Reason) (rs : List Ref) (d : Decision)
    → deny_all reason rs d ≡ record d { denied = d.denied ++ map (denied_as reason) rs }
unfolding deny_all
deny_all_lem reason [] d = ground (arith, append-nil d.denied)
deny_all_lem reason (r ∷ rs) d =
    deny_all_lem reason rs (deny r reason d)
    ∙ ap (λ (xs : List DeniedRef). record d { denied = xs })
        (append_assoc d.denied (denied_as reason r ∷ []) (map (denied_as reason) rs))

-- Whether the plan of the job names the secret.
abbrev pub planned : List Ref → Ref → Bool
planned plan_refs r = any (λ p. is p r) plan_refs

abbrev sorted_out : List Ref → List Ref → Decision → Decision
sorted_out plan_refs rs d = record {
  allowed = d.allowed ++ keep (planned plan_refs) rs;
  denied = d.denied ++ map (denied_as not_in_plan) (keep (λ r. not (planned plan_refs r)) rs);
}

decide_each_lem :
    (plan_refs rs : List Ref) (d : Decision)
    → decide_each plan_refs rs d ≡ sorted_out plan_refs rs d
unfolding decide_each
decide_each_lem plan_refs [] d = ground (arith, append-nil d.denied, append-nil d.allowed)
decide_each_lem plan_refs (r ∷ rs) d =
    decide_each_lem plan_refs rs (decide_one plan_refs r d)
    ∙ ground (
      arith,
      append_assoc d.allowed (r ∷ []) (keep (planned plan_refs) rs),
      append_assoc d.denied (denied_as not_in_plan r ∷ [])
          (map (denied_as not_in_plan) (keep (λ (x : Ref). not (planned plan_refs x)) rs)),
    )

-- An identity with the right to read secrets, on a run that is not a fork's, gets exactly the
-- requested secrets that its plan names, in the requested order; the others are denied with
-- their reason. Without the right, or on a fork's run, every requested secret is denied.
pub decide_secrets_lem :
    (id : Identity) (requested plan_refs : List Ref) (trust : TrustLevel)
    → decide_secrets id requested plan_refs trust ≡ (
        if not (has_scope id scope_secrets_read)
        then record { allowed = []; denied = map (denied_as lacks_scope) requested }
        else (if is trust fork
            then record { allowed = []; denied = map (denied_as fork_run) requested }
            else record {
              allowed = keep (planned plan_refs) requested;
              denied =
                  map (denied_as not_in_plan) (keep (λ r. not (planned plan_refs r)) requested);
            }))
unfolding decide_secrets
decide_secrets_lem id requested plan_refs trust =
    let none_yet : Decision = record { allowed = []; denied = [] } in
    ground (
      arith,
      deny_all_lem lacks_scope requested none_yet,
      deny_all_lem fork_run requested none_yet,
      decide_each_lem plan_refs requested none_yet,
    )
