-- ===== src/Server/Secrets.antt =====
-- Which secrets leave the control plane.
use mathlib.Core.Path.{subst}
use forgelet.Prelude.{
  true, false, Option, some, List, [], ◌∷◌, Text, text, text_key, Map, lookup, insert,
  lookup-insert, is, map, keep, inl, inr, ◌≡◌, refl, sym, arith, Bool-cases, Option-cases,
  Result-cases, inl-injective, some-injective, if_pos, if_neg,
}
use forgelet.Security.Identity.{Identity, has_scope, scope_secrets_read}
use forgelet.Security.Policy.{
  TrustLevel, fork, trust_key, Ref, ref_key, authorize_execution, decide_secrets,
}
use forgelet.Security.Policy.Secrets.{planned, decide_secrets_lem}
use forgelet.Executor.Plan.{Plan}
use forgelet.Server.State.{Server, get_plan}
use forgelet.Server.Access.{
  bad_request, not_found, Request, auth, job_from_path, scoped_job, trust_of, secret_path,
  secret_value, deliver, handle_secrets,
}

-- The secrets that a plan names.
abbrev pub refs_of : Plan → List Ref
refs_of p = map (λ x. record { scope = x.scope; name = x.name }) p.secret_refs

planned-keep :
    (refs rs : List Ref) (r : Ref)
    → planned (keep (planned refs) rs) r ≡ true
    → (planned refs r ≡ true) × (planned rs r ≡ true)
planned-keep refs [] r h = cc
planned-keep refs (q ∷ qs) r h = elim (Bool-cases (planned refs q)) [
  | inr e ↦
      let k : planned (keep (planned refs) qs) r ≡ true = (rw e at h) in
      let (a, b) = planned-keep refs qs r k in (a, ground (arith, b))
  | inl e ↦ elim (ref_key.dec q r) [
    | yes p ↦ (rw⁻¹ p (e), rw (if_pos (ref_key.dec q r) p true false) refl)
    | no n ↦
        let k : planned (keep (planned refs) qs) r ≡ true = ground (arith, h, e, n) in
        let (a, b) = planned-keep refs qs r k in (a, ground (arith, b))
  ]
]

-- The condition under which a secret is delivered to a job run.
abbrev pub MayRead : Identity → List Ref → Plan → TrustLevel → Ref → Type 0
MayRead ident requested p trust ref =
    (is trust fork ≡ false)
    × (has_scope ident scope_secrets_read ≡ true)
    × (planned (refs_of p) ref ≡ true)
    × (planned requested ref ≡ true)

allowed-MayRead :
    (ident : Identity) (requested : List Ref) (p : Plan) (trust : TrustLevel) (ref : Ref)
    → planned (decide_secrets ident requested (refs_of p) trust).allowed ref ≡ true
    → MayRead ident requested p trust ref
allowed-MayRead ident requested p trust ref h =
    let k = (rw (decide_secrets_lem ident requested (refs_of p) trust) at h) in
    elim (Bool-cases (has_scope ident scope_secrets_read)) [
      | inr e ↦ let c : false ≡ true = (rw e at k) in cc
      | inl e ↦ elim (Bool-cases (is trust fork)) [
        | inl f ↦ let c : false ≡ true = (rw (e, f) at k) in cc
        | inr f ↦
            let c : planned (keep (planned (refs_of p)) requested) ref ≡ true = (rw (e, f) at k) in
            let (a, b) = planned-keep (refs_of p) requested ref c in (f, e, a, b)
      ]
    ]

nothing : (i w : Text) (A : Type 0) → lookup {V = Text} i [] ≡ some w → A
unfolding lookup
nothing i w A h = cc

-- What holds of each entry that was there and of each value that may be added holds of all.
deliver-All :
    (store : Option (Text → Text → Option Text)) (values : Map Text Text) (rs : List Ref)
    (out : Map Text Text) (P : Text → Text → Type 0)
    → ((k v : Text) → lookup k out ≡ some v → P k v)
    → ((ref : Ref) (v : Text)
        → planned rs ref ≡ true
        → secret_value store values ref ≡ some v
        → P (secret_path ref) v)
    → (k v : Text) → lookup k (deliver store values rs out) ≡ some v
    → P k v
unfolding deliver
deliver-All store values [] out P h g k v e = h k v e
deliver-All store values (r ∷ rs) out P h g k v e =
    let g' : (ref : Ref) (w : Text)
        → planned rs ref ≡ true
        → secret_value store values ref ≡ some w
        → P (secret_path ref) w =
      λ ref w i f. g ref w (ground (arith, i)) f in
    elim (Option-cases (secret_value store values r)) [
      | inl f ↦ deliver-All store values rs out P h g' k v (rw f at e)
      | inr (w, f) ↦
          let h' : (i x : Text) → lookup i (insert (secret_path r) w out) ≡ some x → P i x =
            λ i x j. elim (text_key.dec (secret_path r) i) [
              | yes p ↦
                  let same : some w ≡ some x =
                    (rw
                      (
                        lookup-insert (secret_path r) i w out,
                        if_pos (text_key.dec (secret_path r) i) p,
                      )
                      at j) in
                  subst (λ (y : Text). P y x) p
                    (subst (λ (y : Text). P (secret_path r) y) (some-injective w x same)
                      (g r w (ground arith) f))
              | no n ↦ h i x (
                  rw
                    (
                      lookup-insert (secret_path r) i w out,
                      if_neg (text_key.dec (secret_path r) i) n,
                    )
                    at j)
            ] in
          deliver-All store values rs (insert (secret_path r) w out) P h' g' k v (rw f at e)
    ]

module _ (identify : Text → Option Identity) where
  -- The bearer of the token is bound to the job run that the request names, and has the scope.
  abbrev pub IsBearer : {B : Type 0} → Text → Request B → Identity → Type 0
  IsBearer scope r ident =
      (auth identify r.authorization ≡ inl ident)
      × (ident.job_run_id ≡ r.id)
      × (has_scope ident scope ≡ true)

  pub scoped_job-IsBearer :
      {B : Type 0} (scope : Text) (r : Request B) (ident : Identity)
      → scoped_job identify scope r ≡ inl ident
      → IsBearer scope r ident
  unfolding scoped_job job_from_path authorize_execution
  scoped_job-IsBearer scope r ident h = elim (Result-cases (auth identify r.authorization)) [
    | inr (e, q) ↦ let c : inr e ≡ inl ident = (rw (scoped_job, job_from_path, q) at h) in cc
    | inl (i, q) ↦ elim (text_key.dec i.job_run_id r.id) [
      | no n ↦ ground (arith, h, q, n)
      | yes y ↦ (ground (arith, h, q, y), ground (arith, h, q, y), ground (arith, h, q, y))
    ]
  ]

  -- A value leaves the control plane only for an identity with a valid token that is bound to the
  -- job run of the request and may read secrets, when the run is not a fork's: it is the value of
  -- a secret that the request names and that the plan of that very job run names.
  pub handle_secrets-MayRead :
      {S : Type 0} (store : Option (Text → Text → Option Text)) (values : Map Text Text)
      (r : Request (List Ref)) (s : Server S) (out : Map Text Text)
      → handle_secrets identify store values r s ≡ inl out
      → (ident : Identity) × (requested : List Ref) × (p : Plan) × IsBearer scope_secrets_read r
          ident
        × (r.body ≡ some requested)
        × (get_plan r.id s ≡ some p)
        × ((k v : Text)
            → lookup k out ≡ some v
            → (ref : Ref) × MayRead ident requested p (trust_of r.id s) ref
              × (secret_path ref ≡ k)
              × (secret_value store values ref ≡ some v))
  unfolding handle_secrets
  handle_secrets-MayRead store values r s out h =
      elim (Result-cases (scoped_job identify scope_secrets_read r)) [
        | inr (e, q) ↦ let c : inr e ≡ inl out = (rw (handle_secrets, q) at h) in cc
        | inl (ident, q) ↦ elim (Option-cases r.body) [
          | inl b ↦
              let c : inr (bad_request (text "malformed request")) ≡ inl out =
                (rw (handle_secrets, q, b) at h) in
              cc
          | inr (requested, b) ↦ elim (Option-cases (get_plan r.id s)) [
            | inl g ↦
                let c : inr (not_found (text "plan not found")) ≡ inl out =
                  (rw (handle_secrets, q, b, g) at h) in
                cc
            | inr (p, g) ↦
                let rs = (decide_secrets ident requested (refs_of p) (trust_of r.id s)).allowed in
                let given : inl (deliver store values rs []) ≡ inl out =
                  (rw (handle_secrets, q, b, g) at h) in
                (
                  ident,
                  requested,
                  p,
                  scoped_job-IsBearer scope_secrets_read r ident q,
                  b,
                  g,
                  λ k v e.
                      deliver-All store values rs []
                        (λ i w.
                          (ref : Ref) × MayRead ident requested p (trust_of r.id s) ref
                          × (secret_path ref ≡ i)
                          × (secret_value store values ref ≡ some w))
                        (λ i w f. nothing i w _ f)
                        (λ ref w i f.
                          (ref, allowed-MayRead ident requested p (trust_of r.id s) ref i, refl, f))
                        k v
                        (subst (λ (m : Map Text Text). lookup k m ≡ some v)
                          (sym (inl-injective (deliver store values rs []) out given)) e),
                )
          ]
        ]
      ]
