-- ===== src/Security/Identity.antt =====
-- internal/security/identity/identity.go: token claims, the checks on them, and the nonce cache.
pub mod Nonces
use forgelet.Prelude.{
  ℕ, ◌+◌, ◌≡◌, Bool, true, false, not, ◌||◌, ◌&&◌, Option, none, some, List, [], ◌∷◌, Text, text,
  Map, is, any, is_empty, ltb, arith, ◌⊎◌, inl, inr, ◌≤◌, ◌<◌, ◌==◌, length, if◌then◌else◌, lookup,
  insert, text_key,
}
use forgelet.Run.Records.{JobRunId, Time}

abbrev pub audience : Text
audience = text "forgelet-control-plane"

abbrev pub scope_secrets_read : Text
scope_secrets_read = text "secrets:read"

abbrev pub scope_plan_read : Text
scope_plan_read = text "plan:read"

abbrev pub scope_status_write : Text
scope_status_write = text "status:write"

abbrev pub scope_observed_write : Text
scope_observed_write = text "observed:write"

-- A `time.Duration` in nanoseconds; `MaxTTL` is an hour.
abbrev pub max_ttl : ℕ
max_ttl = 3_600_000_000_000

-- An instant is a count of nanoseconds from Go's zero time, which is 0.
pub record Identity : Type 0 where
  pub audience : Text
  pub namespace : Text
  pub pod_uid : Text
  pub job_run_id : JobRunId
  pub scopes : List Text
  pub token_id : Text
  pub issued_at : Time
  pub expires_at : Time

unfoldable pub has_scope : Identity → Text → Bool
has_scope id scope = any (λ s. is s scope) id.scopes

pub data TokenError : Type 0 where
  wrong_audience missing_binding bad_expiry bad_signature malformed expired future_issue :
      TokenError

-- The claims that `Issue` signs, or its refusal. `fresh_id` is the id that the token source gives.
unfoldable pub issue_claims : Time → Text → Identity → Identity ⊎ TokenError
issue_claims now fresh_id id =
    if not (is id.audience audience)
    then inr wrong_audience
    else (if is_empty id.namespace || (is_empty id.pod_uid || is_empty id.job_run_id)
        then inr missing_binding
        else (if (id.expires_at == 0) || ltb (now + max_ttl) id.expires_at
            then inr bad_expiry
            else inl (record id {
              issued_at = if id.issued_at == 0 then now else id.issued_at;
              token_id = if is_empty id.token_id then fresh_id else id.token_id;
            })))

-- The checks that `Verify` makes on the claims, once the signature holds and they decode.
unfoldable pub verify_claims : Time → ℕ → Identity → Identity ⊎ TokenError
verify_claims now max_skew id =
    if not (is id.audience audience)
    then inr wrong_audience
    else (if not (ltb now id.expires_at)
        then inr expired
        else (if ltb (now + max_skew) id.issued_at then inr future_issue else inl id))

-- The claims that `Issue` signs name the job run that was asked for, which is not empty. Unless they
-- give an issue time that is further in the future than the skew allows, `Verify` accepts them
-- unchanged at every later time before their expiry and refuses them as expired at every other one,
-- among these the time that is `MaxTTL` after the issue.
pub issue_claims-verify_claims :
    (now later max_skew : ℕ) (fresh_id : Text) (id issued : Identity)
    → issue_claims now fresh_id id ≡ inl issued
    → id.issued_at ≤ now + max_skew
    → now ≤ later
    → (issued.job_run_id ≡ id.job_run_id)
      × (is_empty issued.job_run_id ≡ false)
      × (verify_claims later max_skew issued
          ≡ (if ltb later issued.expires_at then inl issued else inr expired))
      × (verify_claims (now + max_ttl) max_skew issued ≡ inr expired)
unfolding issue_claims verify_claims
issue_claims-verify_claims now later max_skew fresh_id id issued e s x = ground arith

pub record MemoryNonceCache : Type 0 where
  pub seen : Map Text Time
  pub ttl : ℕ

unfoldable pub evict : Time → Map Text Time → Map Text Time
evict now [] = []
evict now ((id, exp) ∷ m) =
    let rest = evict now m in if not (ltb now exp) then rest else (id, exp) ∷ rest

unfoldable pub is_replay : Time → Option Time → Bool
is_replay now none = false
is_replay now (some exp) = ltb now exp

unfoldable pub claim : Time → Text → MemoryNonceCache → MemoryNonceCache × Bool
unfolding is_replay evict
claim now id c =
    if is_replay now (lookup id c.seen)
    then (c, false)
    else (let kept = if ltb 1024 (length c.seen) then evict now c.seen else c.seen in
        (record c { seen = insert id (now + c.ttl) kept }, true))
