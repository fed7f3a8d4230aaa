-- ===== src/Memory/Candidates.antt =====
-- The candidates of a claim: jobs of the store that are queued and that nobody has claimed.
pub mod Needs
use forgelet.Memory.Candidates.Needs.{
  Released, DepState-cases, Scanned, dependency_state_locked-Scanned,
}
use forgelet.Prelude.{
  ◌≡◌, ◌≢◌, some, refl, insert, lookup-insert, sym, ap, ◌∙◌, Text, true, false, List, [], ◌∷◌, All,
  lookup, lookup_or, keys, text_key, sort, sort-All, arith, Bool-cases, Option-cases, inl, inr, not,
  ◌&&◌, is, ◌⊎◌, is_empty, if◌then◌else◌,
}
use mathlib.Core.List.{Memᴰ}
use mathlib.Core.Path.{subst}
use forgelet.Run.JobStatus.{JobRunStatus, job_status_key}
use forgelet.Run.Records.{RunId, JobRunId, Time, JobRunRecord}
use forgelet.Memory.State.{DurableStore, job_at, Result, StoreError, ok, err}
use forgelet.Memory.Claim.{
  dep_verdict, job_by_key, Candidate, DepState, scan_deps, candidates_of, older, claim_first,
  claim_next_queued_job, skip_job, refresh_run_locked, dependency_state_locked, claim,
}
use forgelet.Memory.Progress.{Present}
use forgelet.Memory.Progress.Operations.{AllPresent, ids_of}

pub record IsCandidate (s : DurableStore) (c : Candidate) : Type 0 where
  pub present : Present s.jobs c.id
  pub queued : (job_at s c.id).status ≡ JobRunStatus.queued
  pub unclaimed : lookup_or false c.id s.claimed ≡ false
  pub dated : c.at ≡ (job_at s c.id).created_at

abbrev pub Candidates : DurableStore → List Candidate → Type 0
Candidates s = All (IsCandidate s)

pub Candidates-AllPresent :
    (s : DurableStore) (cs : List Candidate) → Candidates s cs → AllPresent s.jobs (ids_of cs)
Candidates-AllPresent s [] h = tt
Candidates-AllPresent s (c ∷ cs) h = (h.0.present, Candidates-AllPresent s cs h.1)

queued-Present :
    (s : DurableStore) (id : JobRunId)
    → (job_at s id).status ≡ JobRunStatus.queued
    → Present s.jobs id
queued-Present s id h = elim (Option-cases (lookup id s.jobs)) [
  | inl e ↦ absurd (ground arith)
  | inr p ↦ p
]

candidates_of-Candidates :
    (s : DurableStore) (ids : List JobRunId) → Candidates s (candidates_of s ids)
unfolding candidates_of
candidates_of-Candidates s [] = tt
candidates_of-Candidates s (id ∷ ids) =
    elim (Bool-cases
      (is (job_at s id).status JobRunStatus.queued && not (lookup_or false id s.claimed))) [
        | inl e ↦
            let queued : (job_at s id).status ≡ JobRunStatus.queued = ground arith in
            rw (e, candidates_of)
              (
                record {
                  present = queued-Present s id queued;
                  queued = queued;
                  unclaimed = ground arith;
                  dated = refl;
                },
                candidates_of-Candidates s ids,
              )
        | inr e ↦ rw (e, candidates_of) (candidates_of-Candidates s ids)
      ]

pub sort-Candidates : (s : DurableStore) → Candidates s (sort older (candidates_of s (keys s.jobs)))
sort-Candidates s = sort-All older (IsCandidate s) _ (candidates_of-Candidates s (keys s.jobs))

skip_job-claimed :
    (id : JobRunId) (t : Time) (s : DurableStore) → (skip_job id t s).claimed ≡ s.claimed
unfolding skip_job refresh_run_locked
skip_job-claimed id t s = ground arith

-- The outcome of the search through the candidates: nothing is claimed, or the claim on one of
-- them, which is released, is added.
pub Claimed : DurableStore → List Candidate → DurableStore → Result JobRunRecord → Type 0
Claimed s cs t (err e) = (e ≡ StoreError.no_queued_job) × (t.claimed ≡ s.claimed)
Claimed s cs t (ok job) =
    (c : Candidate) × Memᴰ c cs
    × (job ≡ job_at t c.id)
    × (t.claimed ≡ insert c.id true s.claimed)
    × Released t job

Claimed-tail :
    (s u : DurableStore) (c : Candidate) (cs : List Candidate) (t : DurableStore)
    (r : Result JobRunRecord)
    → u.claimed ≡ s.claimed
    → Claimed u cs t r
    → Claimed s (c ∷ cs) t r
unfolding Claimed
Claimed-tail s u c cs t (err e) k h = (h.0, h.1 ∙ k)
Claimed-tail s u c cs t (ok job) k (d, m, j, q, n) =
    (d, Memᴰ.tail m, j, q ∙ ap (insert d.id true) k, n)

claim-Claimed :
    (s : DurableStore) (c : Candidate) (cs : List Candidate)
    → Released s (job_at s c.id)
    → Claimed s (c ∷ cs) (claim c.id s).0 (claim c.id s).1
unfolding Claimed claim job_by_key
claim-Claimed s c cs r = (c, Memᴰ.head refl, refl, refl, r)

claim_first-Claimed :
    (clock : JobRunId → Time) (cs : List Candidate) (s : DurableStore)
    → Claimed s cs (claim_first clock cs s).0 (claim_first clock cs s).1
unfolding claim_first
claim_first-Claimed clock [] s = unfold Claimed in (refl, refl)
claim_first-Claimed clock (c ∷ cs) s =
    let u = skip_job c.id (clock c.id) s in
    let job = job_at s c.id in
    let read : (d : DepState)
        → dependency_state_locked c.id s ≡ d
        → Scanned s job.run_id job.depends_on DepState.ready d =
      λ d e.
        subst (Scanned s job.run_id job.depends_on DepState.ready) e
          (dependency_state_locked-Scanned s c.id) in
    elim (DepState-cases (dependency_state_locked c.id s)) [
      | inl e ↦ rw (claim_first, e) (claim-Claimed s c cs (inl (read DepState.ready e).1))
      | inr (inl e) ↦
          rw (claim_first, e) (Claimed-tail s s c cs _ _ refl (claim_first-Claimed clock cs s))
      | inr (inr e) ↦ elim (Bool-cases (is_empty job.condition)) [
        | inl b ↦
            rw (claim_first, e, b)
              (Claimed-tail s u c cs _ _ (skip_job-claimed c.id (clock c.id) s)
                (claim_first-Claimed clock cs u))
        | inr b ↦
            rw (claim_first, e, b)
              (claim-Claimed s c cs (elim (read DepState.failed e) [
                | inl q ↦ absurd (ground arith)
                | inr found ↦ inr (b, found)
              ]))
      ]
    ]

Candidates-mem :
    (s : DurableStore) (cs : List Candidate) (c : Candidate)
    → Candidates s cs
    → Memᴰ c cs
    → IsCandidate s c
Candidates-mem s [] c h m = elim m [ ]
Candidates-mem s (x ∷ cs) c h (Memᴰ.head e) = subst (IsCandidate s) (sym e) h.0
Candidates-mem s (x ∷ cs) c h (Memᴰ.tail m) = Candidates-mem s cs c h.1 m

-- A claim that succeeds returns the record of a job that was queued and not claimed, adds the
-- claim on that job and touches no other claim. For each key that the job needs, the job of its run
-- under that key has succeeded; or else the job has a condition, and one of the jobs that it needs
-- has failed, was cancelled or was skipped, and then the others may still be open.
pub claim_next_queued_job-claims :
    (clock : JobRunId → Time) (s : DurableStore) (job : JobRunRecord)
    → (claim_next_queued_job clock s).1 ≡ ok job
    → let t = (claim_next_queued_job clock s).0 in
      (c : Candidate) × IsCandidate s c
      × (job ≡ job_at t c.id)
      × (t.claimed ≡ insert c.id true s.claimed)
      × Released t job
unfolding claim_next_queued_job Claimed
claim_next_queued_job-claims clock s job e =
    let cs = sort older (candidates_of s (keys s.jobs)) in
    let (c, m, j, q, n) =
      subst (Claimed s cs (claim_first clock cs s).0) e (claim_first-Claimed clock cs s) in
    (c, Candidates-mem s cs c (sort-Candidates s) m, j, q, n)

-- Two claims in a row never hand out the same job.
pub claim_next_queued_job-twice :
    (clock clock' : JobRunId → Time) (s : DurableStore) (job job' : JobRunRecord)
    → (claim_next_queued_job clock s).1 ≡ ok job
    → (claim_next_queued_job clock' (claim_next_queued_job clock s).0).1 ≡ ok job'
    → let t = (claim_next_queued_job clock s).0 in
      (c c' : Candidate) × (job ≡ job_at t c.id)
      × (job' ≡ job_at (claim_next_queued_job clock' t).0 c'.id)
      × (c.id ≢ c'.id)
claim_next_queued_job-twice clock clock' s job job' e f =
    let t = (claim_next_queued_job clock s).0 in
    let (c, w, j, q, n) = claim_next_queued_job-claims clock s job e in
    let (c', w', j', q', n') = claim_next_queued_job-claims clock' t job' f in
    (c, c', j, j', λ p. ground (arith, lookup-insert c.id c'.id true s.claimed, w'.unclaimed))
