-- ===== src/Scheduler/Backend/Windows.antt =====
-- The crash windows of dispatch and of ingestion, over the in-memory stores.
use forgelet.Prelude.{◌≡◌, refl, ap, ◌+◌, true, some, lookup, lookup-insert, text_key, ite, arith}
use forgelet.Run.JobStatus.{JobRunStatus}
use forgelet.Run.Records.{JobRunId, Time, JobRunRecord, cr_name, delivery_key}
use forgelet.Memory.State.{DurableStore, ok}
use forgelet.Memory.Read.{get_job_run}
use forgelet.Memory.Update.{ActiveObject, ack_dispatched, dispatched_with}
use forgelet.Memory.Active.{ActiveStore, new_object, create_or_get}
use forgelet.Scheduler.Dispatcher.{dispatch, is_dispatchable}
use forgelet.Scheduler.Backend.{memory_port, memory_active}

stored :
    (id j : JobRunId) (a : ActiveStore)
    → lookup j (create_or_get id a).0.objects
      ≡ ite (text_key.dec id j) (some (create_or_get id a).1) (lookup j a.objects)
unfolding create_or_get
stored id j a = ground (
  arith,
  lookup-insert id j (new_object id a) a.objects,
  ap (λ (k : JobRunId). lookup k a.objects) {x = id} {y = j},
)

found :
    (id : JobRunId) (a : ActiveStore) (obj : ActiveObject)
    → lookup id a.objects ≡ some obj
    → create_or_get id a ≡ (record a { create_calls = a.create_calls + 1 }, obj)
unfolding create_or_get
found id a obj e = ground arith

-- `CreateOrGet` leaves the object in the store under the job and no other object changed. Called
-- again it returns the same object, and neither adds nor changes one.
pub create_or_get-twice :
    (id j : JobRunId) (a : ActiveStore)
    → let (b, obj) = create_or_get id a in
      (lookup j b.objects ≡ ite (text_key.dec id j) (some obj) (lookup j a.objects))
      × (create_or_get id b ≡ (record b { create_calls = b.create_calls + 1 }, obj))
create_or_get-twice id j a =
    let (b, obj) = create_or_get id a in
    (stored id j a, found id b obj (ground (arith, stored id id a)))

-- What `Dispatch` does, in one equation.
dispatch_lem :
    (id : JobRunId) (now : Time) (s : DurableStore) (a : ActiveStore) (job : JobRunRecord)
    → lookup id s.jobs ≡ some job
    → is_dispatchable job.status ≡ true
    → let (b, obj) = create_or_get id a in
      let (t, r) = ack_dispatched id (record { name = cr_name id; uid = obj.uid }) now s in
      dispatch memory_port memory_active id now (s, a) ≡ ((t, b), r)
unfolding dispatch get_job_run
dispatch_lem id now s a job e d = ground arith

-- A dispatch of a queued job goes through: the active object exists, and the job is dispatched
-- under its deterministic name with the UID of that object.
dispatch-queued :
    (id : JobRunId) (now : Time) (s : DurableStore) (a : ActiveStore) (job : JobRunRecord)
    → lookup id s.jobs ≡ some job
    → job.status ≡ JobRunStatus.queued
    → let ((t, b), r) = dispatch memory_port memory_active id now (s, a) in
      let obj = (create_or_get id a).1 in
      (r ≡ ok tt)
      × (lookup id b.objects ≡ some obj)
      × (lookup id t.jobs
          ≡ some (dispatched_with (record { name = cr_name id; uid = obj.uid }) now job))
unfolding is_dispatchable ack_dispatched
dispatch-queued id now s a job e q =
    let obj = (create_or_get id a).1 in
    let j' = dispatched_with (record { name = cr_name id; uid = obj.uid }) now job in
    rw (dispatch_lem id now s a job e (ground arith))
      (ground arith, ground (arith, stored id id a), ground (arith, lookup-insert id id j' s.jobs))

-- Window W2: the process died between the object and the acknowledgement. The dispatch that
-- comes later creates no second object and ends as the first would have ended.
pub dispatch-window2 :
    (id : JobRunId) (now : Time) (s : DurableStore) (a : ActiveStore) (job : JobRunRecord)
    → lookup id s.jobs ≡ some job
    → is_dispatchable job.status ≡ true
    → let b = (create_or_get id a).0 in
      let ((t, c), r) = dispatch memory_port memory_active id now (s, b) in
      let ((t', c'), r') = dispatch memory_port memory_active id now (s, a) in
      (t ≡ t') × (r ≡ r') × (c.objects ≡ c'.objects) × (c.created ≡ c'.created)
dispatch-window2 id now s a job e d =
    let b = (create_or_get id a).0 in
    rw
      (
        dispatch_lem id now s a job e d,
        dispatch_lem id now s b job e d,
        (create_or_get-twice id id a).1,
      )
      (refl, refl, refl, refl)

-- A dispatched job whose object exists is dispatched again: only the time of dispatch moves.
dispatch_again :
    (id : JobRunId) (now : Time) (s : DurableStore) (a : ActiveStore) (obj : ActiveObject)
    (job : JobRunRecord)
    → lookup id s.jobs ≡ some job
    → lookup id a.objects ≡ some obj
    → job.status ≡ JobRunStatus.dispatched
    → job.active_name ≡ cr_name id
    → let ((u, c), r) = dispatch memory_port memory_active id now (s, a) in
      (r ≡ ok tt)
      × (c ≡ record a { create_calls = a.create_calls + 1 })
      × (lookup id u.jobs
          ≡ some (dispatched_with (record { name = cr_name id; uid = obj.uid }) now job))
unfolding is_dispatchable ack_dispatched
dispatch_again id now s a obj job e o d n =
    let j' = dispatched_with (record { name = cr_name id; uid = obj.uid }) now job in
    rw (dispatch_lem id now s a job e (ground arith), found id a obj o)
      (ground arith, ground arith, ground (arith, lookup-insert id id j' s.jobs))

-- Dispatching a queued job twice: the second dispatch is accepted too, creates no object, and
-- the job keeps its name and UID.
dispatch-twice :
    (id : JobRunId) (now now' : Time) (s : DurableStore) (a : ActiveStore) (job : JobRunRecord)
    → lookup id s.jobs ≡ some job
    → job.status ≡ JobRunStatus.queued
    → let ((t, b), r) = dispatch memory_port memory_active id now (s, a) in
      let ((u, c), r') = dispatch memory_port memory_active id now' (t, b) in
      let obj = (create_or_get id a).1 in
      (r' ≡ ok tt)
      × (c ≡ record b { create_calls = b.create_calls + 1 })
      × (lookup id u.jobs
          ≡ some (dispatched_with (record { name = cr_name id; uid = obj.uid }) now' job))
dispatch-twice id now now' s a job e q =
    let (r, o, j) = dispatch-queued id now s a job e q in
    let ((t, b), r') = dispatch memory_port memory_active id now (s, a) in
    dispatch_again id now' t b (create_or_get id a).1 _ j o refl refl
