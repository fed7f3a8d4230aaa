-- ===== src/Memory/Invariant/Create.antt =====
-- `CreateRun` and `RerequestJob` and the invariant of the store.
use forgelet.Prelude.{
  ◌≡◌, refl, sym, inl, inr, Map, List, [], ◌∷◌, ◌++◌, lookup, lookup_or, insert, lookup_or-insert,
  text_key, arith, Text, Option-cases, if_pos, if_neg,
}
use forgelet.Run.JobStatus.{job_status_key}
use forgelet.Run.Records.{
  delivery_key, RunId, JobRunId, Time, JobRunRecord, RunSeed, DeliveryRecord, RunRecord,
}
use forgelet.Memory.State.{DurableStore, new_id, Result, ok, err}
use forgelet.Memory.Create.{Created, finish_create, create_new, create_run}
use forgelet.Memory.Update.{rerequest_job, add_attempt, point_key, reopen, next_attempt}
use forgelet.Memory.Progress.{Grows, Grows-refl, Grows-trans, insert_new-Grows, Evolves-refl}
use forgelet.Memory.Progress.Operations.{AllPresent}
use forgelet.Memory.Invariant.{WellFormed, SameIndex, Evolves-WellFormed}
use mathlib.Core.Path.{subst}
use forgelet.Memory.Invariant.Jobs.{
  Grows-AllPresent, AllPresent-snoc, insert-Present, draw-Fresh, draw_run-Fresh, Adds, Adds-after,
  add_jobs-Adds,
}

-- The effect of an operation that may add jobs.
pub record Extends (s t : DurableStore) : Type 0 where
  pub well_formed : WellFormed t
  pub grows : Grows s.jobs t.jobs

Extends-refl : (s : DurableStore) → WellFormed s → Extends s s
Extends-refl s w = record { well_formed = w; grows = Grows-refl s.jobs }

listed-insert :
    (m : Map RunId (List JobRunId)) (jobs : Map JobRunId JobRunRecord) (r : RunId)
    (ids : List JobRunId)
    → ((q : RunId) → AllPresent jobs (lookup_or [] q m))
    → AllPresent jobs ids
    → (q : RunId) → AllPresent jobs (lookup_or [] q (insert r ids m))
listed-insert m jobs r ids h k q =
    subst (AllPresent jobs) (sym (lookup_or-insert [] r q ids m)) (elim (text_key.dec r q) [
      | yes e ↦ rw (if_pos (text_key.dec r q) e) k
      | no n ↦ rw (if_neg (text_key.dec r q) n) (h q)
    ])

finish_create-Extends :
    (seed : RunSeed) (rec : DeliveryRecord) (run : RunRecord) (s : DurableStore)
    (r : DurableStore × Result Created)
    → WellFormed s
    → Adds s r
    → Extends s (finish_create seed rec run r).0
unfolding finish_create
finish_create-Extends seed rec run s (t, ok c) w a = record {
  well_formed = record {
    fresh = record {
      minted_once = a.fresh.minted_once;
      minted_some = a.fresh.minted_some;
      jobs_fresh = a.fresh.jobs_fresh;
    };
    listed =
        listed-insert t.run_jobs t.jobs run.id c.job_ids
          (λ q. rw a.lists (Grows-AllPresent s.jobs t.jobs _ a.grows (w.listed q))) a.created;
  };
  grows = a.grows;
}
finish_create-Extends seed rec run s (t, err e) w a = record {
  well_formed = record {
    fresh = a.fresh;
    listed = λ q. rw a.lists (Grows-AllPresent s.jobs t.jobs _ a.grows (w.listed q));
  };
  grows = a.grows;
}

create_new-Extends :
    (seed : RunSeed) (now : Time) (rec : DeliveryRecord) (s : DurableStore)
    → WellFormed s
    → Extends s (create_new seed now rec s).0
unfolding create_new
create_new-Extends seed now rec s w =
    let s' = (new_id s).1 in
    finish_create-Extends seed rec _ s _ w (
      Adds-after s s' _ (Grows-refl s.jobs) refl
        (add_jobs-Adds _ now seed.jobs s' _ (draw_run-Fresh s s' refl refl refl w.fresh) tt))

pub create_run-Extends :
    (seed : RunSeed) (now : Time) (s : DurableStore)
    → WellFormed s
    → Extends s (create_run seed now s).0
unfolding create_run
create_run-Extends seed now s w = elim (Option-cases (lookup seed.delivery s.deliveries)) [
  | inl e ↦ rw (e, create_run) (Extends-refl s w)
  | inr (rec, e) ↦
      rw (e, create_run) (ground (arith, Extends-refl s w, create_new-Extends seed now rec s w))
]

reopen-keeps :
    (r : RunId) (s : DurableStore) → SameIndex s (reopen r s) × ((reopen r s).jobs ≡ s.jobs)
unfolding reopen
reopen-keeps r s = ground arith

-- Nothing that the invariant reads is changed.
same_tables : (s t : DurableStore) → SameIndex s t → t.jobs ≡ s.jobs → WellFormed s → Extends s t
same_tables s t i j w = record {
  well_formed = Evolves-WellFormed s t i (rw j (Evolves-refl s.jobs)) w;
  grows = rw j (Grows-refl s.jobs);
}

point_key-keeps :
    (r : RunId) (key : Text) (id : JobRunId) (s : DurableStore)
    → SameIndex s (point_key r key id s).0 × ((point_key r key id s).0.jobs ≡ s.jobs)
unfolding point_key
point_key-keeps r key id s = ground arith

Extends-trans : (s t u : DurableStore) → Extends s t → Extends t u → Extends s u
Extends-trans s t u p q = record {
  well_formed = q.well_formed;
  grows = Grows-trans s.jobs t.jobs u.jobs p.grows q.grows;
}

add_attempt-Extends :
    (orig : JobRunRecord) (now : Time) (s : DurableStore)
    → WellFormed s
    → Extends s (add_attempt orig now s).0
unfolding add_attempt
add_attempt-Extends orig now s w =
    Extends-trans s t _ added (same_tables t _ kept.0 kept.1 added.well_formed)
  where
    id : JobRunId
    id = s.ids.mint s.ids.drawn

    job : JobRunRecord
    job = next_attempt orig id now

    t : DurableStore
    t = record (new_id s).1 {
      jobs = insert id job s.jobs;
      run_jobs = insert orig.run_id (lookup_or [] orig.run_id s.run_jobs ++ id ∷ []) s.run_jobs;
    }

    grows : Grows s.jobs t.jobs
    grows = insert_new-Grows s.jobs id job (w.fresh.jobs_fresh s.ids.drawn (omega arith))

    added : Extends s t
    added = record {
      well_formed = record {
        fresh = draw-Fresh s t job refl refl refl w.fresh;
        listed =
            listed-insert s.run_jobs t.jobs orig.run_id _
              (λ q. Grows-AllPresent s.jobs t.jobs _ grows (w.listed q))
              (AllPresent-snoc t.jobs _ id
                (Grows-AllPresent s.jobs t.jobs _ grows (w.listed orig.run_id))
                (insert-Present s.jobs id job));
      };
      grows = grows;
    }

    kept :
        SameIndex t (point_key orig.run_id orig.job_key id t).0
        × ((point_key orig.run_id orig.job_key id t).0.jobs ≡ t.jobs)
    kept = point_key-keeps orig.run_id orig.job_key id t

pub rerequest_job-Extends :
    (id : JobRunId) (now : Time) (s : DurableStore)
    → WellFormed s
    → Extends s (rerequest_job id now s).0
unfolding rerequest_job
rerequest_job-Extends id now s w = elim (Option-cases (lookup id s.jobs)) [
  | inl e ↦ rw (e, rerequest_job) (Extends-refl s w)
  | inr (orig, e) ↦
      rw (e, rerequest_job) (ground (arith, Extends-refl s w, add_attempt-Extends orig now s w))
]
