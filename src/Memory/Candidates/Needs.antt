-- ===== src/Memory/Candidates/Needs.antt =====
-- What the scan of the jobs that a job needs finds.
use forgelet.Prelude.{
  ◌≡◌, some, refl, Text, false, List, [], ◌∷◌, All, lookup, lookup_or, keys, text_key, arith,
  Option-cases, inl, inr, ◌⊎◌, is_empty, if◌then◌else◌,
}
use mathlib.Core.List.{Memᴰ}
use mathlib.Core.Path.{subst}
use forgelet.Run.JobStatus.{JobRunStatus}
use forgelet.Run.Records.{RunId, JobRunId, JobRunRecord}
use forgelet.Memory.State.{DurableStore, job_at}
use forgelet.Memory.Claim.{dep_verdict, job_by_key, DepState, scan_deps, dependency_state_locked}

-- The statuses of a job that let one that needs it start, or fail.
abbrev pub Means : DepState → JobRunStatus → Type 0
Means DepState.ready st = st ≡ JobRunStatus.succeeded
Means DepState.blocked st = Unit
Means DepState.failed st =
    (st ≡ JobRunStatus.failed) ⊎ (st ≡ JobRunStatus.cancelled) ⊎ (st ≡ JobRunStatus.skipped)

dep_verdict-Means : (st : JobRunStatus) → Means (dep_verdict st) st
unfolding dep_verdict
dep_verdict-Means JobRunStatus.unset = tt
dep_verdict-Means JobRunStatus.queued = tt
dep_verdict-Means JobRunStatus.dispatched = tt
dep_verdict-Means JobRunStatus.running = tt
dep_verdict-Means JobRunStatus.succeeded = refl
dep_verdict-Means JobRunStatus.failed = inl refl
dep_verdict-Means JobRunStatus.cancelled = inr (inl refl)
dep_verdict-Means JobRunStatus.skipped = inr (inr refl)

-- The job that a key stands for in a run has such a status.
abbrev pub Needed : DurableStore → RunId → DepState → Text → Type 0
Needed s run_id d key =
    (id : JobRunId) × (job_by_key s run_id key ≡ some id) × Means d (job_at s id).status

found :
    (s : DurableStore) (run_id : RunId) (key : Text) (id : JobRunId) (d : DepState)
    → job_by_key s run_id key ≡ some id
    → dep_verdict (job_at s id).status ≡ d
    → Needed s run_id d key
found s run_id key id d e v =
    (id, e, subst (λ x. Means x (job_at s id).status) v (dep_verdict-Means (job_at s id).status))

-- Every key that is needed has a job that succeeded; or there is a condition, and a key whose job
-- failed, was cancelled or was skipped.
abbrev pub Released : DurableStore → JobRunRecord → Type 0
Released s job =
    All (Needed s job.run_id DepState.ready) job.depends_on
    ⊎ ((is_empty job.condition ≡ false)
        × ((key : Text) × Memᴰ key job.depends_on × Needed s job.run_id DepState.failed key))

pub DepState-cases :
    (d : DepState) → (d ≡ DepState.ready) ⊎ (d ≡ DepState.blocked) ⊎ (d ≡ DepState.failed)
DepState-cases DepState.ready = inl refl
DepState-cases DepState.blocked = inr (inl refl)
DepState-cases DepState.failed = inr (inr refl)

-- What the scan of the keys says about them.
abbrev pub Scanned : DurableStore → RunId → List Text → DepState → DepState → Type 0
Scanned s r keys d DepState.ready = (d ≡ DepState.ready) × All (Needed s r DepState.ready) keys
Scanned s r keys d DepState.blocked = Unit
Scanned s r keys d DepState.failed =
    (d ≡ DepState.failed) ⊎ ((key : Text) × Memᴰ key keys × Needed s r DepState.failed key)

Scanned-here :
    (s : DurableStore) (r : RunId) (k : Text) (keys : List Text) (d e : DepState)
    → Needed s r DepState.ready k
    → Scanned s r keys d e
    → Scanned s r (k ∷ keys) d e
Scanned-here s r k keys d DepState.ready n (q, h) = (q, (n, h))
Scanned-here s r k keys d DepState.blocked n h = tt
Scanned-here s r k keys d DepState.failed n (inl q) = inl q
Scanned-here s r k keys d DepState.failed n (inr (key, m, h)) = inr (key, Memᴰ.tail m, h)

Scanned-waits :
    (s : DurableStore) (r : RunId) (k : Text) (keys : List Text) (d e : DepState)
    → Scanned s r keys DepState.blocked e
    → Scanned s r (k ∷ keys) d e
Scanned-waits s r k keys d DepState.ready (q, h) = absurd (ground arith)
Scanned-waits s r k keys d DepState.blocked h = tt
Scanned-waits s r k keys d DepState.failed (inl q) = absurd (ground arith)
Scanned-waits s r k keys d DepState.failed (inr (key, m, h)) = inr (key, Memᴰ.tail m, h)

scan_deps-Scanned :
    (s : DurableStore) (r : RunId) (ks : List Text) (d : DepState)
    → Scanned s r ks d (scan_deps s r ks d)
unfolding scan_deps
scan_deps-Scanned s r [] DepState.ready = (refl, tt)
scan_deps-Scanned s r [] DepState.blocked = tt
scan_deps-Scanned s r [] DepState.failed = inl refl
scan_deps-Scanned s r (k ∷ ks) d = elim (Option-cases (job_by_key s r k)) [
  | inl e ↦ rw (scan_deps, e) tt
  | inr (id, e) ↦ elim (DepState-cases (dep_verdict (job_at s id).status)) [
    | inl v ↦
        rw (scan_deps, e, v)
          (Scanned-here s r k ks d (scan_deps s r ks d) (found s r k id DepState.ready e v)
            (scan_deps-Scanned s r ks d))
    | inr (inl v) ↦
        rw (scan_deps, e, v)
          (Scanned-waits s r k ks d (scan_deps s r ks DepState.blocked)
            (scan_deps-Scanned s r ks DepState.blocked))
    | inr (inr v) ↦
        rw (scan_deps, e, v) (inr (k, Memᴰ.head refl, found s r k id DepState.failed e v))
  ]
]

-- Without keys, there is nothing to scan.
filled-Scanned :
    (s : DurableStore) (r : RunId) (keys : List Text)
    → Scanned s r keys DepState.ready
        (if is_empty keys then DepState.ready else scan_deps s r keys DepState.ready)
filled-Scanned s r [] = (refl, tt)
filled-Scanned s r (k ∷ keys) = scan_deps-Scanned s r (k ∷ keys) DepState.ready

-- The scan of the keys that a job needs.
pub dependency_state_locked-Scanned :
    (s : DurableStore) (id : JobRunId)
    → Scanned s
        (job_at s id).run_id
        (job_at s id).depends_on
        DepState.ready
        (dependency_state_locked id s)
unfolding dependency_state_locked
dependency_state_locked-Scanned s id = elim (Option-cases (lookup id s.jobs)) [
  | inl e ↦ rw (dependency_state_locked, job_at, lookup_or, e) (refl, tt)
  | inr (job, e) ↦
      rw (dependency_state_locked, job_at, lookup_or, e)
        (filled-Scanned s job.run_id job.depends_on)
]
