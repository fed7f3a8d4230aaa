-- ===== src/Memory/Refusal.antt =====
-- What `CreateRun` leaves behind when it fails.
use mathlib.Core.List.{Memᴰ}
use forgelet.Prelude.{
  ◌≡◌, arith, ◌∙◌, ap, refl, some, lookup, lookup-insert, text_key, ◌∷◌, [], List, inl, inr, ◌⊎◌,
  is_empty, Bool-cases, Option-cases, if_pos, if_neg,
}
use forgelet.Run.Records.{
  RunId, JobRunId, Time, JobIntent, DeliveryRecord, RunRecord, RunSeed, delivery_key,
}
use forgelet.Memory.State.{DurableStore, StoreError, Result, ok, err, new_id}
use forgelet.Memory.Create.{
  Created, create_run, create_new, finish_create, add_jobs, add_job, new_job,
}

-- Everything but the jobs and the identifiers is as before, and so is each job, unless it is one
-- that was made for an intent, under the run.
pub record Leaves (run_id : RunId) (now : Time) (is : List JobIntent) (s t : DurableStore)
    : Type 0 where
  pub runs : t.runs ≡ s.runs
  pub run_jobs : t.run_jobs ≡ s.run_jobs
  pub keys : t.by_job_key ≡ s.by_job_key
  pub deliveries : t.deliveries ≡ s.deliveries
  pub claims : t.claimed ≡ s.claimed
  pub jobs :
      (j : JobRunId)
      → (lookup j t.jobs ≡ lookup j s.jobs)
        ⊎ ((i : JobIntent) × Memᴰ i is × (lookup j t.jobs ≡ some (new_job run_id j i now)))

Leaves-refl :
    (r : RunId) (now : Time) (is : List JobIntent) (s : DurableStore) → Leaves r now is s s
Leaves-refl r now is s = record {
  runs = refl;
  run_jobs = refl;
  keys = refl;
  deliveries = refl;
  claims = refl;
  jobs = λ j. inl refl;
}

Leaves-trans :
    (r : RunId) (now : Time) (is : List JobIntent) (s t u : DurableStore)
    → Leaves r now is s t
    → Leaves r now is t u
    → Leaves r now is s u
Leaves-trans r now is s t u a b = record {
  runs = b.runs ∙ a.runs;
  run_jobs = b.run_jobs ∙ a.run_jobs;
  keys = b.keys ∙ a.keys;
  deliveries = b.deliveries ∙ a.deliveries;
  claims = b.claims ∙ a.claims;
  jobs = λ j. elim (b.jobs j) [
    | inr left ↦ inr left
    | inl e ↦ elim (a.jobs j) [ inl f ↦ inl (e ∙ f) | inr (k, m, f) ↦ inr (k, m, e ∙ f) ]
  ];
}

add_job-Leaves :
    (r : RunId) (now : Time) (is : List JobIntent) (i : JobIntent) (s : DurableStore) (c : Created)
    → Memᴰ i is
    → Leaves r now is s (add_job r now i s c).0
unfolding add_job
add_job-Leaves r now is i s c m =
    let id = s.ids.mint s.ids.drawn in
    let new = new_job r id i now in
    record {
      runs = refl;
      run_jobs = refl;
      keys = refl;
      deliveries = refl;
      claims = refl;
      jobs = λ j. elim (text_key.dec id j) [
        | yes e ↦ inr (
          i,
          m,
          lookup-insert id j new s.jobs
              ∙ if_pos (text_key.dec id j) e _ _
              ∙ ap (λ (x : JobRunId). some (new_job r x i now)) e,
        )
        | no n ↦ inl (lookup-insert id j new s.jobs ∙ if_neg (text_key.dec id j) n _ _)
      ];
    }

add_jobs-Leaves :
    (r : RunId) (now : Time) (is todo : List JobIntent) (s : DurableStore) (c : Created)
    → ((i : JobIntent) → Memᴰ i todo → Memᴰ i is)
    → Leaves r now is s (add_jobs r now todo s c).0
unfolding add_jobs
add_jobs-Leaves r now is [] s c h = Leaves-refl r now is s
add_jobs-Leaves r now is (i ∷ todo) s c h = elim (Option-cases (lookup i.job_key c.key_index)) [
  | inl e ↦
      let w = add_job r now i s c in
      rw (add_jobs, e)
        (Leaves-trans r now is s w.0 _ (add_job-Leaves r now is i s c (h i (Memᴰ.head refl)))
          (add_jobs-Leaves r now is todo w.0 w.1 (λ k m. h k (Memᴰ.tail m))))
  | inr (id, e) ↦ rw (add_jobs, e) (Leaves-refl r now is s)
]

-- A new run that is refused.
finish_create-Leaves :
    (seed : RunSeed) (rec : DeliveryRecord) (run : RunRecord) (now : Time) (s : DurableStore)
    (w : DurableStore × Result Created) (e : StoreError)
    → (finish_create seed rec run w).1 ≡ err e
    → Leaves run.id now seed.jobs s w.0
    → Leaves run.id now seed.jobs s (finish_create seed rec run w).0
unfolding finish_create
finish_create-Leaves seed rec run now s (t, ok c) e h a = absurd (ground arith)
finish_create-Leaves seed rec run now s (t, err d) e h a = a

-- Whatever makes `CreateRun` fail, it leaves the runs, the lists of their jobs, their keys, the
-- deliveries and the claims as they were. Under each identifier, the job table has what it had, or
-- a new queued job of an intent of the seed, under the identifier of the run that was not made.
pub create_run-Leaves :
    (seed : RunSeed) (now : Time) (s : DurableStore) (e : StoreError)
    → (create_run seed now s).1 ≡ err e
    → Leaves (s.ids.mint s.ids.drawn) now seed.jobs s (create_run seed now s).0
unfolding create_run create_new
create_run-Leaves seed now s e h =
    let drawn : Leaves (s.ids.mint s.ids.drawn) now seed.jobs s (new_id s).1 = record {
      runs = refl;
      run_jobs = refl;
      keys = refl;
      deliveries = refl;
      claims = refl;
      jobs = λ j. inl refl;
    } in
    elim (Option-cases (lookup seed.delivery s.deliveries)) [
      | inl d ↦ rw (create_run, d) (Leaves-refl _ now seed.jobs s)
      | inr (rec, d) ↦ elim (Bool-cases (is_empty rec.run_id)) [
        | inr b ↦ rw (create_run, d, b) (Leaves-refl _ now seed.jobs s)
        | inl b ↦ elim (Bool-cases (is_empty seed.jobs)) [
          | inl n ↦ rw (create_run, d, b, n) (Leaves-refl _ now seed.jobs s)
          | inr n ↦
              rw (create_run, d, b, n)
                (finish_create-Leaves seed rec _ now s _ e (rw (create_run, d, b, n) at h) (
                  Leaves-trans _ now seed.jobs s (new_id s).1 _ drawn
                    (add_jobs-Leaves _ now seed.jobs seed.jobs _ _ (λ i m. m))))
        ]
      ]
    ]
