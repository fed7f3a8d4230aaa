-- ===== src/Memory/Invariant/Jobs.antt =====
-- The loop of `CreateRun` over the jobs and the invariant of the store.
use forgelet.Prelude.{
  suc, ◌≡◌, refl, ◌∙◌, ◌≢◌, inl, inr, Map, List, [], ◌∷◌, ◌++◌, lookup, insert, lookup-insert,
  text_key, arith, Option-cases, if_neg, is,
}
use forgelet.Run.JobStatus.{job_status_key}
use forgelet.Run.Records.{delivery_key, RunId, JobRunId, Time, JobRunRecord, JobIntent}
use forgelet.Memory.State.{DurableStore, Result, ok, err}
use forgelet.Memory.Create.{Created, add_job, add_jobs, new_job}
use forgelet.Memory.Progress.{
  Grows, Grows-refl, Grows-trans, insert_new-Grows, Present, Grows-Present,
}
use forgelet.Memory.Progress.Operations.{AllPresent}
use forgelet.Memory.Invariant.{Fresh}

pub Grows-AllPresent :
    (m n : Map JobRunId JobRunRecord) (ids : List JobRunId)
    → Grows m n
    → AllPresent m ids
    → AllPresent n ids
Grows-AllPresent m n [] g h = tt
Grows-AllPresent m n (id ∷ ids) g h = (Grows-Present m n id g h.0, Grows-AllPresent m n ids g h.1)

pub AllPresent-snoc :
    (m : Map JobRunId JobRunRecord) (ids : List JobRunId) (id : JobRunId)
    → AllPresent m ids
    → Present m id
    → AllPresent m (ids ++ id ∷ [])
AllPresent-snoc m [] id h p = (p, tt)
AllPresent-snoc m (x ∷ ids) id h p = (h.0, AllPresent-snoc m ids id h.1 p)

pub insert-Present :
    (m : Map JobRunId JobRunRecord) (id : JobRunId) (b : JobRunRecord) → Present (insert id b m) id
insert-Present m id b = (b, ground (arith, lookup-insert id id b m))

-- A job under the next identifier uses that identifier up.
pub draw-Fresh :
    (s t : DurableStore) (b : JobRunRecord)
    → t.ids.mint ≡ s.ids.mint
    → t.ids.drawn ≡ suc s.ids.drawn
    → t.jobs ≡ insert (s.ids.mint s.ids.drawn) b s.jobs
    → Fresh s
    → Fresh t
draw-Fresh s t b m d j w = record {
  minted_once = λ k n h. w.minted_once k n (rw m at h);
  minted_some = λ n h. w.minted_some n (rw m at h);
  jobs_fresh = λ n h.
      let apart : s.ids.mint s.ids.drawn ≢ s.ids.mint n =
        λ e. absurd (omega (arith, w.minted_once s.ids.drawn n e)) in
      rw (m, j, lookup-insert (s.ids.mint s.ids.drawn) (s.ids.mint n) b s.jobs)
        (rw (if_neg _ apart) (w.jobs_fresh n (omega arith)));
}

pub draw_run-Fresh :
    (s t : DurableStore)
    → t.ids.mint ≡ s.ids.mint
    → t.ids.drawn ≡ suc s.ids.drawn
    → t.jobs ≡ s.jobs
    → Fresh s
    → Fresh t
draw_run-Fresh s t m d j w = record {
  minted_once = λ k n h. w.minted_once k n (rw m at h);
  minted_some = λ n h. w.minted_some n (rw m at h);
  jobs_fresh = λ n h. rw (m, j) (w.jobs_fresh n (omega arith));
}

-- The loop of `CreateRun` keeps the store fresh, loses no job, and lists jobs that exist.
abbrev Listed : DurableStore → Result Created → Type 0
Listed s (ok c) = AllPresent s.jobs c.job_ids
Listed s (err e) = Unit

pub record Adds (s : DurableStore) (r : DurableStore × Result Created) : Type 0 where
  pub fresh : Fresh r.0
  pub grows : Grows s.jobs r.0.jobs
  pub lists : r.0.run_jobs ≡ s.run_jobs
  pub created : Listed r.0 r.1

add_job-Adds :
    (run_id : RunId) (now : Time) (i : JobIntent) (s : DurableStore) (c : Created)
    → Fresh s
    → AllPresent s.jobs c.job_ids
    → Adds s ((add_job run_id now i s c).0, ok (add_job run_id now i s c).1)
unfolding add_job
add_job-Adds run_id now i s c w h =
    let id = s.ids.mint s.ids.drawn in
    let job = new_job run_id id i now in
    let grows = insert_new-Grows s.jobs id job (w.jobs_fresh s.ids.drawn (omega arith)) in
    record {
      fresh = draw-Fresh s _ job refl refl refl w;
      grows = grows;
      lists = refl;
      created =
          AllPresent-snoc (insert id job s.jobs) c.job_ids id
            (Grows-AllPresent s.jobs (insert id job s.jobs) c.job_ids grows h)
            (insert-Present s.jobs id job);
    }

pub Adds-after :
    (s t : DurableStore) (r : DurableStore × Result Created)
    → Grows s.jobs t.jobs
    → t.run_jobs ≡ s.run_jobs
    → Adds t r
    → Adds s r
Adds-after s t r g e a = record {
  fresh = a.fresh;
  grows = Grows-trans s.jobs t.jobs r.0.jobs g a.grows;
  lists = a.lists ∙ e;
  created = a.created;
}

pub add_jobs-Adds :
    (run_id : RunId) (now : Time) (is : List JobIntent) (s : DurableStore) (c : Created)
    → Fresh s
    → AllPresent s.jobs c.job_ids
    → Adds s (add_jobs run_id now is s c)
unfolding add_jobs
add_jobs-Adds run_id now [] s c w h = record {
  fresh = w;
  grows = Grows-refl s.jobs;
  lists = refl;
  created = h;
}
add_jobs-Adds run_id now (i ∷ is) s c w h = elim (Option-cases (lookup i.job_key c.key_index)) [
  | inl e ↦
      let a = add_job-Adds run_id now i s c w h in
      let (s', c') = add_job run_id now i s c in
      rw (e, add_jobs)
        (Adds-after s s' _ a.grows a.lists (add_jobs-Adds run_id now is s' c' a.fresh a.created))
  | inr (id, e) ↦
      rw (e, add_jobs) (record { fresh = w; grows = Grows-refl s.jobs; lists = refl; created = tt })
]
