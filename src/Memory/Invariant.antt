-- ===== src/Memory/Invariant.antt =====
-- What holds of the durable store between two operations.
pub mod Jobs
pub mod Create
pub mod History
use forgelet.Prelude.{
  ℕ, suc, ◌≤◌, ◌<◌, ◌≡◌, refl, sym, ap, ◌≢◌, ◌⊎◌, inl, inr, true, false, Bool, Map, Option, none,
  some, List, [], ◌∷◌, ◌++◌, map, All, lookup, lookup_or, insert, lookup-insert, text_key, sort,
  keys, arith, Bool-cases, if_pos, if_neg, if◌then◌else◌, not, ◌&&◌, is,
}
use forgelet.Run.JobStatus.{JobRunStatus, job_status_key}
use forgelet.Run.Records.{RunId, JobRunId, Time, JobRunRecord}
use forgelet.Memory.State.{DurableStore, new_durable_store, IdGen}
use forgelet.Memory.Claim.{
  refresh_run_locked, skip_job, claim_first, claim_next_queued_job, Candidate, candidates_of, older,
}
use forgelet.Memory.Candidates.{Candidates-AllPresent, sort-Candidates}
use forgelet.Memory.Update.{cancel_job, cancel_jobs}
use forgelet.Memory.Progress.{Evolves, Evolves-Grows, Evolves-none, Present, Grows-Present, Same}
use forgelet.Memory.Progress.Operations.{
  AllPresent, Evolves-AllPresent, ids_of, claim_first-Evolves,
}

-- The generator repeats no identifier, none is empty, and those to come name no job yet.
pub record Fresh (s : DurableStore) : Type 0 where
  pub minted_once : (m n : ℕ) → s.ids.mint m ≡ s.ids.mint n → m ≡ n
  pub minted_some : (n : ℕ) → s.ids.mint n ≢ []
  pub jobs_fresh : (n : ℕ) → s.ids.drawn ≤ n → lookup (s.ids.mint n) s.jobs ≡ none

pub record WellFormed (s : DurableStore) : Type 0 where
  pub fresh : Fresh s
  pub listed : (r : RunId) → AllPresent s.jobs (lookup_or [] r s.run_jobs)

-- The generator and the job lists are as they were.
pub record SameIndex (s t : DurableStore) : Type 0 where
  pub ids : t.ids ≡ s.ids
  pub run_jobs : t.run_jobs ≡ s.run_jobs

pub SameIndex-refl : (s : DurableStore) → SameIndex s s
SameIndex-refl s = record { ids = refl; run_jobs = refl }

pub SameIndex-trans : {s t u : DurableStore} → SameIndex s t → SameIndex t u → SameIndex s u
SameIndex-trans p q = ground arith

Evolves-Fresh : (s t : DurableStore) → t.ids ≡ s.ids → Evolves s.jobs t.jobs → Fresh s → Fresh t
Evolves-Fresh s t e g w = record {
  minted_once = λ m n h. w.minted_once m n (rw e at h);
  minted_some = λ n h. w.minted_some n (rw e at h);
  jobs_fresh =
      λ n h. rw e (Evolves-none s.jobs t.jobs (s.ids.mint n) g (w.jobs_fresh n (rw e at h)));
}

pub Evolves-WellFormed :
    (s t : DurableStore) → SameIndex s t → Evolves s.jobs t.jobs → WellFormed s → WellFormed t
Evolves-WellFormed s t i g w = record {
  fresh = Evolves-Fresh s t i.ids g w.fresh;
  listed = λ r. rw i.run_jobs (Evolves-AllPresent s.jobs t.jobs _ g (w.listed r));
}

refresh_run_locked-SameIndex :
    (r : RunId) (now : Time) (s : DurableStore) → SameIndex s (refresh_run_locked r now s)
unfolding refresh_run_locked
refresh_run_locked-SameIndex r now s = ground arith

skip_job-SameIndex : (id : JobRunId) (t : Time) (s : DurableStore) → SameIndex s (skip_job id t s)
unfolding skip_job refresh_run_locked
skip_job-SameIndex id t s = ground arith

pub claim_first-SameIndex :
    (clock : JobRunId → Time) (cs : List Candidate) (s : DurableStore)
    → SameIndex s (claim_first clock cs s).0
unfolding claim_first
claim_first-SameIndex clock [] s = SameIndex-refl s
claim_first-SameIndex clock (c ∷ cs) s = ground (
  arith,
  claim_first-SameIndex clock cs s,
  skip_job-SameIndex c.id (clock c.id) s,
  claim_first-SameIndex clock cs (skip_job c.id (clock c.id) s),
)

cancel_job-SameIndex :
    (id : JobRunId) (now : Time) (s : DurableStore) → SameIndex s (cancel_job id now s)
unfolding cancel_job
cancel_job-SameIndex id now s = ground arith

pub cancel_jobs-SameIndex :
    (ids : List JobRunId) (now : Time) (s : DurableStore) → SameIndex s (cancel_jobs ids now s)
unfolding cancel_jobs
cancel_jobs-SameIndex [] now s = SameIndex-refl s
cancel_jobs-SameIndex (id ∷ ids) now s =
    SameIndex-trans (cancel_job-SameIndex id now s)
      (cancel_jobs-SameIndex ids now (cancel_job id now s))

pub claim_next_queued_job-Evolves :
    (clock : JobRunId → Time) (s : DurableStore)
    → Evolves s.jobs (claim_next_queued_job clock s).0.jobs
unfolding claim_next_queued_job
claim_next_queued_job-Evolves clock s =
    claim_first-Evolves clock (sort older (candidates_of s (keys s.jobs))) s
      (Candidates-AllPresent s _ (sort-Candidates s))

-- A store that starts with a sound generator is well formed.
pub new_durable_store-WellFormed :
    (ids : IdGen)
    → ((m n : ℕ) → ids.mint m ≡ ids.mint n → m ≡ n)
    → ((n : ℕ) → ids.mint n ≢ [])
    → WellFormed (new_durable_store ids)
unfolding new_durable_store lookup
new_durable_store-WellFormed ids once some_id = record {
  fresh = record { minted_once = once; minted_some = some_id; jobs_fresh = λ n h. refl };
  listed = λ r. tt;
}
