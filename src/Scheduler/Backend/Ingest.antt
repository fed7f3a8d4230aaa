-- ===== src/Scheduler/Backend/Ingest.antt =====
-- Ingestion over the in-memory store.
use mathlib.Core.Path.{subst}
use forgelet.Prelude.{
  ◌≡◌, ◌≢◌, refl, sym, ap, true, false, Bool, arith, Bool-cases, Option-cases, inl, inr, is_empty,
  List, [],
}
use forgelet.Run.Records.{
  RunId, Time, JobIntent, Delivery, RunRecord, RunSeed, DeliveryKey, delivery_key,
}
use forgelet.Memory.State.{DurableStore, Result, ok, err}
use forgelet.Memory.Create.{create_run, record_delivery}
use forgelet.Memory.Invariant.{WellFormed}
use forgelet.Memory.Invariant.History.{Call, records, step, history, step-WellFormed}
use forgelet.Memory.Delivery.{Bound}
use forgelet.Memory.Delivery.Binding.{history-Bound, is_empty→nil}
use forgelet.Memory.Delivery.Replay.{create_run-Made}
use forgelet.Scheduler.Port.{Compiler}
use forgelet.Scheduler.Ingestor.{Ingested, run, created, start, after_record, ingest, first_invalid}
use forgelet.Scheduler.Backend.{memory_port}

-- What an ingestion that made a run leaves behind.
abbrev Leaves : DeliveryKey → DurableStore → Ingested → Type 0
Leaves k t i = (r : RunId) → i ≡ run r true → Bound k r t × (r ≢ [])

created-Leaves :
    (compile : Compiler) (seed : RunSeed) (now : Time) (s : DurableStore)
    → WellFormed s
    → (q : DurableStore × Result (RunRecord × Bool)) → create_run seed now s ≡ q
    → Leaves seed.delivery (created memory_port compile q).0 (created memory_port compile q).1
unfolding created
created-Leaves compile seed now s w (t, err e) h r i = cc
created-Leaves compile seed now s w (t, ok (x, false)) h r i = cc
created-Leaves compile seed now s w (t, ok (x, true)) h r i =
    let made =
      create_run-Made seed now s w.fresh x
        (ap (λ (p : DurableStore × Result (RunRecord × Bool)). p.1) h) in
    let same : x.id ≡ r = ground arith in
    let moved =
      subst (λ (u : DurableStore). Bound seed.delivery x.id u × (x.id ≢ []))
        (ap (λ (p : DurableStore × Result (RunRecord × Bool)). p.0) h) made in
    subst (λ (y : RunId). Bound seed.delivery y t × (y ≢ [])) same moved

start-Leaves :
    (compile : Compiler) (d : Delivery) (jobs : List JobIntent) (now : Time) (s : DurableStore)
    → WellFormed s
    → Leaves d.key
        (start memory_port compile d jobs now s).0
        (start memory_port compile d jobs now s).1
unfolding start
start-Leaves compile d jobs now s w r i = elim (Option-cases (first_invalid jobs)) [
  | inr (e, f) ↦ absurd (ground arith)
  | inl f ↦ elim (Bool-cases (is_empty jobs)) [
    | inl g ↦ absurd (ground arith)
    | inr g ↦
        let seed : RunSeed = record { delivery = d.key; event = d.event; jobs = jobs } in
        rw (f, start, g)
          (created-Leaves compile seed now s w (create_run seed now s) refl r (ground arith))
  ]
]

recorded-WellFormed :
    (clock : Time) (d : Delivery) (s : DurableStore)
    → WellFormed s
    → WellFormed (record_delivery clock d s).0
recorded-WellFormed clock d s w = unfold step in (step-WellFormed s (records clock d) w)

ingest-Leaves :
    (compile : Compiler) (d : Delivery) (clock now : Time) (s : DurableStore)
    → WellFormed s
    → Leaves d.key
        (ingest memory_port compile d clock now s).0
        (ingest memory_port compile d clock now s).1
unfolding ingest after_record
ingest-Leaves compile d clock now s w r i =
    let (t, (rec, f)) = record_delivery clock d s in
    elim (Bool-cases (is_empty rec.run_id)) [
      | inr full ↦ absurd (ground arith)
      | inl vacant ↦ elim (Option-cases (compile d.event rec.payload)) [
        | inl e ↦ absurd (ground arith)
        | inr (jobs, e) ↦
            rw (vacant, e)
              (start-Leaves compile d jobs now t (recorded-WellFormed clock d s w) r (ground arith))
      ]
    ]

Bound-ingest :
    (compile : Compiler) (d : Delivery) (clock now : Time) (s : DurableStore) (r : RunId)
    → r ≢ []
    → Bound d.key r s
    → ingest memory_port compile d clock now s ≡ (s, run r false)
unfolding ingest after_record record_delivery
Bound-ingest compile d clock now s r n b = ground (arith, b.recorded, b.bound, full)
  where
    full : is_empty b.rec.run_id ≡ false
    full = ground (arith, is_empty→nil b.rec.run_id, b.bound, n)

-- Once an ingestion has made a run, every later ingestion of the delivery, after any calls of the
-- store and with any compiler, answers with that run, not created, and writes nothing.
pub ingest-replay :
    (compile compile' : Compiler) (d d' : Delivery) (clock clock' now now' : Time)
    (s : DurableStore) (r : RunId) (cs : List Call)
    → WellFormed s
    → (ingest memory_port compile d clock now s).1 ≡ run r true
    → d'.key ≡ d.key
    → let t = history (ingest memory_port compile d clock now s).0 cs in
      ingest memory_port compile' d' clock' now' t ≡ (t, run r false)
ingest-replay compile compile' d d' clock clock' now now' s r cs w i k =
    let (b, n) = ingest-Leaves compile d clock now s w r i in
    let t = history (ingest memory_port compile d clock now s).0 cs in
    let b' : Bound d'.key r t =
      subst (λ (x : DeliveryKey). Bound x r t) (sym k) (history-Bound d.key r _ cs n b) in
    Bound-ingest compile' d' clock' now' t r n b'
