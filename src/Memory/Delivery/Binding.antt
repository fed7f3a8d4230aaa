-- ===== src/Memory/Delivery/Binding.antt =====
-- The binding of a delivery to its run, through any history of calls.
use forgelet.Prelude.{
  ◌≡◌, refl, ap, ◌≢◌, inl, inr, true, List, [], ◌∷◌, lookup, lookup-insert, text_key, arith,
  Option-cases, Bool-cases, is_empty,
}
use forgelet.Run.Records.{
  RunId, Time, RunRecord, DeliveryKey, Delivery, DeliveryRecord, RunSeed, JobIntent, delivery_key,
}
use forgelet.Memory.State.{DurableStore, Result, ok, err, new_id}
use forgelet.Memory.Create.{
  Created, new_delivery, record_delivery, add_job, add_jobs, finish_create, create_new, create_run,
}
use forgelet.Memory.Invariant.History.{
  Call, records, creates, claims, releases, acks, observes, cancels, rerequests, collects, step,
  history,
}
use forgelet.Memory.Delivery.{Bound, Bound-keep}
use forgelet.Memory.Delivery.Operations.{
  apply_observed-KeepsBound, cancel_run-KeepsBound, rerequest_job-KeepsBound,
  release_claim-KeepsBound, claim_next_queued_job-KeepsBound, ack_dispatched-KeepsBound,
  mark_collected-KeepsBound,
}

-- A delivery that is recorded now was not recorded before.
record_delivery-Bound :
    (k : DeliveryKey) (r : RunId) (clock : Time) (d : Delivery) (s : DurableStore)
    → Bound k r s
    → Bound k r (record_delivery clock d s).0
unfolding record_delivery
record_delivery-Bound k r clock d s b = elim (Option-cases (lookup d.key s.deliveries)) [
  | inr (rec, e) ↦ rw (e, record_delivery) b
  | inl e ↦
      let apart : d.key ≢ k =
        λ p. ground (arith, ap (λ (x : DeliveryKey). lookup x s.deliveries) p, b.recorded) in
      rw (e, record_delivery)
        (record {
          rec = b.rec;
          recorded =
              ground (
                arith,
                b.recorded,
                apart,
                lookup-insert d.key k (new_delivery clock d) s.deliveries,
              );
          bound = b.bound;
          run = b.run;
          stored = b.stored;
          named = b.named;
        })
]

add_jobs-tables :
    (run_id : RunId) (now : Time) (is : List JobIntent) (s : DurableStore) (c : Created)
    → ((add_jobs run_id now is s c).0.deliveries ≡ s.deliveries)
      × ((add_jobs run_id now is s c).0.runs ≡ s.runs)
unfolding add_jobs add_job
add_jobs-tables run_id now [] s c = (refl, refl)
add_jobs-tables run_id now (i ∷ is) s c =
    let (s', c') = add_job run_id now i s c in ground (arith, add_jobs-tables run_id now is s' c')

finish_create-Bound :
    (k : DeliveryKey) (r : RunId) (seed : RunSeed) (rec : DeliveryRecord) (run : RunRecord)
    (s : DurableStore) (q : DurableStore × Result Created)
    → seed.delivery ≢ k
    → (q.0.deliveries ≡ s.deliveries) × (q.0.runs ≡ s.runs)
    → Bound k r s
    → Bound k r (finish_create seed rec run q).0
unfolding finish_create
finish_create-Bound k r seed rec run s (t, ok c) other (d, e) b = elim (text_key.dec run.id r) [
  | yes p ↦ record {
    rec = b.rec;
    recorded = ground (
      arith,
      b.recorded,
      lookup-insert seed.delivery k (record rec { run_id = run.id }) t.deliveries,
    );
    bound = b.bound;
    run = run;
    stored = ground (arith, lookup-insert run.id r run t.runs);
    named = p;
  }
  | no n ↦ record {
    rec = b.rec;
    recorded = ground (
      arith,
      b.recorded,
      lookup-insert seed.delivery k (record rec { run_id = run.id }) t.deliveries,
    );
    bound = b.bound;
    run = b.run;
    stored = ground (arith, b.stored, lookup-insert run.id r run t.runs);
    named = b.named;
  }
]
finish_create-Bound k r seed rec run s (t, err x) other (d, e) b = record {
  rec = b.rec;
  recorded = rw d b.recorded;
  bound = b.bound;
  run = b.run;
  stored = rw e b.stored;
  named = b.named;
}

pub is_empty→nil : (xs : RunId) → is_empty xs ≡ true → xs ≡ []
is_empty→nil [] h = refl
is_empty→nil (x ∷ xs) h = cc

create_new-Bound :
    (k : DeliveryKey) (r : RunId) (seed : RunSeed) (now : Time) (rec : DeliveryRecord)
    (s : DurableStore)
    → seed.delivery ≢ k
    → Bound k r s
    → Bound k r (create_new seed now rec s).0
unfolding create_new
create_new-Bound k r seed now rec s other b =
    finish_create-Bound k r seed rec _ s _ other
      (add_jobs-tables (new_id s).0 now seed.jobs (new_id s).1
        (record { key_index = []; job_ids = [] }))
      b

create_run-Bound :
    (k : DeliveryKey) (r : RunId) (seed : RunSeed) (now : Time) (s : DurableStore)
    → r ≢ []
    → Bound k r s
    → Bound k r (create_run seed now s).0
unfolding create_run
create_run-Bound k r seed now s some_id b =
    elim (Option-cases (lookup seed.delivery s.deliveries)) [
      | inl e ↦ rw (e, create_run) b
      | inr (rec, e) ↦
          rw (e, create_run)
            (elim (Bool-cases (is_empty rec.run_id)) [
              | inr full ↦ rw full b
              | inl vacant ↦ rw vacant (elim (Bool-cases (is_empty seed.jobs)) [
                | inl n ↦ rw n b
                | inr y ↦ rw y (
                    create_new-Bound k r seed now rec s
                      (λ p. some_id (
                        ground (
                          arith,
                          is_empty→nil rec.run_id vacant,
                          ap (λ (x : DeliveryKey). lookup x s.deliveries) p,
                          b.recorded,
                          b.bound,
                        )))
                      b)
              ])
            ])
    ]

step-Bound :
    (k : DeliveryKey) (r : RunId) (s : DurableStore) (c : Call)
    → r ≢ []
    → Bound k r s
    → Bound k r (step s c)
unfolding step
step-Bound k r s (records clock d) n b = record_delivery-Bound k r clock d s b
step-Bound k r s (creates seed now) n b = create_run-Bound k r seed now s n b
step-Bound k r s (claims clock) n b =
    Bound-keep k r s _ (claim_next_queued_job-KeepsBound r clock s) b
step-Bound k r s (releases id) n b = Bound-keep k r s _ (release_claim-KeepsBound r id s) b
step-Bound k r s (acks id obj now) n b =
    Bound-keep k r s _ (ack_dispatched-KeepsBound r id obj now s) b
step-Bound k r s (observes id phase now) n b =
    Bound-keep k r s _ (apply_observed-KeepsBound r id phase now s) b
step-Bound k r s (cancels id now) n b = Bound-keep k r s _ (cancel_run-KeepsBound r id now s) b
step-Bound k r s (rerequests id now) n b =
    Bound-keep k r s _ (rerequest_job-KeepsBound r id now s) b
step-Bound k r s (collects id now) n b = Bound-keep k r s _ (mark_collected-KeepsBound r id now s) b

pub history-Bound :
    (k : DeliveryKey) (r : RunId) (s : DurableStore) (cs : List Call)
    → r ≢ []
    → Bound k r s
    → Bound k r (history s cs)
unfolding history
history-Bound k r s [] n b = b
history-Bound k r s (c ∷ cs) n b = history-Bound k r (step s c) cs n (step-Bound k r s c n b)
