-- ===== src/Memory/Delivery/Replay.antt =====
-- The binding of a delivery to its run, through later calls.
use forgelet.Prelude.{
  ◌≡◌, refl, sym, ◌≢◌, inl, inr, true, false, Bool, some, List, [], lookup, lookup-insert, text_key,
  arith, Option-cases, Bool-cases, is_empty,
}
use mathlib.Core.Path.{subst}
use forgelet.Run.Records.{
  RunId, Time, RunRecord, DeliveryKey, DeliveryRecord, RunSeed, delivery_key,
}
use forgelet.Memory.State.{DurableStore, Result, ok, err, new_id}
use forgelet.Memory.Create.{
  Created, add_jobs, finish_create, create_new, create_run, commit_run, get_run_locked,
  existing_run,
}
use forgelet.Memory.Invariant.{Fresh, WellFormed}
use forgelet.Memory.Invariant.History.{Call, history}
use forgelet.Memory.Delivery.{Bound}
use forgelet.Memory.Delivery.Binding.{is_empty→nil, history-Bound}

-- What a `CreateRun` that made a run leaves behind.
abbrev pub Made : DeliveryKey → DurableStore → Result (RunRecord × Bool) → Type 0
Made k t r = (run : RunRecord) → r ≡ ok (run, true) → Bound k run.id t × (run.id ≢ [])

finish_create-Made :
    (seed : RunSeed) (rec : DeliveryRecord) (run : RunRecord) (q : DurableStore × Result Created)
    → run.id ≢ []
    → Made seed.delivery (finish_create seed rec run q).0 (finish_create seed rec run q).1
unfolding finish_create
finish_create-Made seed rec run (t, err x) n run' e = cc
finish_create-Made seed rec run (t, ok c) n run' e =
    let same : run.id ≡ run'.id = ground arith in
    let rec' = record rec { run_id = run.id } in
    let b : Bound seed.delivery run.id (commit_run seed rec run t c) = record {
      rec = rec';
      recorded = ground (arith, lookup-insert seed.delivery seed.delivery rec' t.deliveries);
      bound = refl;
      run = run;
      stored = ground (arith, lookup-insert run.id run.id run t.runs);
      named = refl;
    } in
    subst (λ (x : RunId). Bound seed.delivery x (commit_run seed rec run t c) × (x ≢ [])) same
      (b, n)

create_new-Made :
    (seed : RunSeed) (now : Time) (rec : DeliveryRecord) (s : DurableStore)
    → Fresh s
    → Made seed.delivery (create_new seed now rec s).0 (create_new seed now rec s).1
unfolding create_new
create_new-Made seed now rec s w =
    finish_create-Made seed rec _ (add_jobs _ now seed.jobs (new_id s).1 _)
      (w.minted_some s.ids.drawn)

existing_run-old : (r : Result RunRecord) (run : RunRecord) → existing_run r ≢ ok (run, true)
unfolding existing_run
existing_run-old (ok x) run = λ e. cc
existing_run-old (err x) run = λ e. cc

pub create_run-Made :
    (seed : RunSeed) (now : Time) (s : DurableStore)
    → Fresh s
    → Made seed.delivery (create_run seed now s).0 (create_run seed now s).1
unfolding create_run
create_run-Made seed now s w run e = elim (Option-cases (lookup seed.delivery s.deliveries)) [
  | inl f ↦ absurd (ground arith)
  | inr (rec, f) ↦ elim (Bool-cases (is_empty rec.run_id)) [
    | inr full ↦ absurd (ground (arith, existing_run-old (get_run_locked rec.run_id s) run))
    | inl vacant ↦ elim (Bool-cases (is_empty seed.jobs)) [
      | inl y ↦ absurd (ground arith)
      | inr y ↦ rw (f, create_run, vacant, y) (create_new-Made seed now rec s w run (ground arith))
    ]
  ]
]

Bound-replay :
    (seed : RunSeed) (now : Time) (s : DurableStore) (r : RunId)
    → r ≢ []
    → Bound seed.delivery r s
    → (run : RunRecord) × (create_run seed now s ≡ (s, ok (run, false))) × (run.id ≡ r)
unfolding create_run get_run_locked existing_run
Bound-replay seed now s r n b = (b.run, replays, b.named)
  where
    full : is_empty b.rec.run_id ≡ false
    full = ground (arith, is_empty→nil b.rec.run_id, b.bound, n)

    stored : lookup b.rec.run_id s.runs ≡ some b.run
    stored = rw b.bound b.stored

    replays : create_run seed now s ≡ (s, ok (b.run, false))
    replays = ground (arith, b.recorded, full, stored)

-- Exactly once: after a `CreateRun` made a run, and whatever calls come between, a `CreateRun`
-- for the same delivery writes nothing and returns a run with the same identifier, not created.
pub create_run-replay :
    (seed seed' : RunSeed) (now now' : Time) (s : DurableStore) (run : RunRecord) (cs : List Call)
    → WellFormed s
    → (create_run seed now s).1 ≡ ok (run, true)
    → seed'.delivery ≡ seed.delivery
    → let t = history (create_run seed now s).0 cs in
      (run' : RunRecord) × (create_run seed' now' t ≡ (t, ok (run', false))) × (run'.id ≡ run.id)
create_run-replay seed seed' now now' s run cs w e d =
    let (b, n) = create_run-Made seed now s w.fresh run e in
    let t = history (create_run seed now s).0 cs in
    let b' : Bound seed'.delivery run.id t =
      subst (λ (k : DeliveryKey). Bound k run.id t) (sym d)
        (history-Bound seed.delivery run.id _ cs n b) in
    Bound-replay seed' now' t run.id n b'
