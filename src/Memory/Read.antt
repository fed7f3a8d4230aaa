-- ===== src/Memory/Read.antt =====
-- internal/storage/memory/store.go: the operations that only read.
use forgelet.Prelude.{
  ℕ, suc, Map, List, [], ◌∷◌, ◌++◌, Bool, ◌&&◌, if◌then◌else◌, ltb, ◌==◌, is, none, some, lookup,
  lookup_or, text_key, text_lt, sort, map, is_none, keys,
}
use forgelet.Run.JobStatus.{JobRunStatus, job_status_key}
use forgelet.Run.JobStatus
use forgelet.Run.RunStatus
use forgelet.Run.Records.{RunId, JobRunId, RunRecord, JobRunRecord}
use forgelet.Memory.State.{DurableStore, StoreError, Result, ok, err, job_at}
use forgelet.Memory.Create.{get_run_locked}

unfoldable pub get_run : RunId → DurableStore → Result RunRecord
unfolding get_run_locked
get_run id s = get_run_locked id s

unfoldable pub get_job_run : JobRunId → DurableStore → Result JobRunRecord
get_job_run id s = elim (lookup id s.jobs) [
  | none ↦ err StoreError.job_run_not_found
  | some job ↦ ok job
]

unfoldable pub list_job_runs : RunId → DurableStore → Result (List JobRunRecord)
list_job_runs run s = elim (lookup run s.runs) [
  | none ↦ err StoreError.run_not_found
  | some r ↦ ok (map (job_at s) (lookup_or [] run s.run_jobs))
]

queued_of : Map JobRunId JobRunRecord → List JobRunRecord
queued_of [] = []
queued_of ((id, j) ∷ m) =
    let rest = queued_of m in if is j.status JobRunStatus.queued then j ∷ rest else rest

unfoldable pub count_queued : Map JobRunId JobRunRecord → ℕ
count_queued [] = 0
count_queued ((id, j) ∷ m) =
    let rest = count_queued m in if is j.status JobRunStatus.queued then suc rest else rest

unfoldable pub count_queued_jobs : DurableStore → ℕ
unfolding count_queued
count_queued_jobs s = count_queued s.jobs

-- The order of two jobs: the older first, and by identifier at the same instant.
unfoldable pub older_job : JobRunRecord → JobRunRecord → Bool
unfolding text_lt
older_job a b =
    if a.created_at == b.created_at then text_lt a.id b.id else ltb a.created_at b.created_at

unfoldable pub list_queued_jobs : DurableStore → List JobRunRecord
unfolding queued_of older_job sort
list_queued_jobs s = sort older_job (queued_of s.jobs)

unfoldable pub sorted_run_ids_locked : DurableStore → List RunId
unfolding sort text_lt
sorted_run_ids_locked s = sort text_lt (keys s.runs)

-- The jobs of one run that the collector has to look at.
unfoldable pub uncollected : DurableStore → List JobRunId → List JobRunRecord
unfolding JobStatus.is_terminal
uncollected s [] = []
uncollected s (id ∷ ids) =
    let rest = uncollected s ids in
    let job = job_at s id in
    if JobStatus.is_terminal job.status && is_none job.active_collected_at then job ∷ rest else rest

unfoldable pub gc_ready_of : DurableStore → List RunId → List JobRunRecord
unfolding RunStatus.is_terminal uncollected
gc_ready_of s [] = []
gc_ready_of s (id ∷ ids) =
    let rest = gc_ready_of s ids in
    elim (lookup id s.runs) [
      | none ↦ rest
      | some run ↦
          if RunStatus.is_terminal run.status
          then uncollected s (lookup_or [] id s.run_jobs) ++ rest
          else rest
    ]

unfoldable pub list_gc_ready_jobs : DurableStore → List JobRunRecord
unfolding gc_ready_of sorted_run_ids_locked
list_gc_ready_jobs s = gc_ready_of s (sorted_run_ids_locked s)
