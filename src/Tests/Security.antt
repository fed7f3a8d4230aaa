-- ===== src/Tests/Security.antt =====
-- Tokens, nonces and secret decisions at concrete inputs.
use forgelet.Prelude.{
  ◌≡◌, ◌+◌, refl, arith, text, [], ◌∷◌, true, false, inl, inr, Text-discrete, lookup, is_empty, ltb,
  if◌then◌else◌,
}
use forgelet.Security.Identity.{
  Identity, audience, scope_secrets_read, max_ttl, expired, issue_claims, verify_claims,
  issue_claims-verify_claims, MemoryNonceCache, claim, is_replay,
}
use forgelet.Security.Identity.Nonces.{claims, claim_once}
use forgelet.Security.Policy.{Ref, trust_key}

abbrev pod : Identity
pod = record {
  audience = audience;
  namespace = text "ci";
  pod_uid = text "p";
  job_run_id = text "j";
  scopes = scope_secrets_read ∷ [];
  token_id = [];
  issued_at = 0;
  expires_at = 900;
}

abbrev pod_token : Identity
pod_token = record pod { token_id = text "t"; issued_at = 500 }

pod_issued : issue_claims 500 (text "t") pod ≡ inl pod_token
unfolding issue_claims Text-discrete
pod_issued = refl

issue_claims-verify_claims_example :
    (pod_token.job_run_id ≡ text "j")
    × (is_empty pod_token.job_run_id ≡ false)
    × (verify_claims 700 30 pod_token
        ≡ (if ltb 700 pod_token.expires_at then inl pod_token else inr expired))
    × (verify_claims (500 + max_ttl) 30 pod_token ≡ inr expired)
issue_claims-verify_claims_example =
    issue_claims-verify_claims 500 700 30 (text "t") pod pod_token pod_issued (ground arith)
      (ground arith)

abbrev cache : MemoryNonceCache
cache = record { seen = []; ttl = 100 }

nonce_claimed : (claim 10 (text "t") cache).1 ≡ true
unfolding claim lookup is_replay
nonce_claimed = refl

claim_once_example :
    (claim 90 (text "t") (claims ((20, text "u") ∷ []) (claim 10 (text "t") cache).0)).1 ≡ false
claim_once_example =
    claim_once 10 90 (text "t") cache ((20, text "u") ∷ []) nonce_claimed (ground arith, tt)
      (ground arith)

abbrev deploy_key : Ref
deploy_key = record { scope = text "repo"; name = text "deploy" }

abbrev other_key : Ref
other_key = record { scope = text "repo"; name = text "other" }
