-- ===== src/Tests/Dispatch.antt =====
-- The use cases of the scheduler at concrete inputs.
use forgelet.Prelude.{◌≡◌, refl, text_key}
use forgelet.Run.JobStatus.{JobRunStatus-discrete}
use forgelet.Memory.Active.{ActiveStore, new_active_store, create_or_get}
use forgelet.Scheduler.Dispatcher.{dispatch, is_dispatchable}
use forgelet.Scheduler.Backend.{memory_port, memory_active}
use forgelet.Scheduler.Backend.Windows.{dispatch-window2}
use forgelet.Tests.{started, build_1, build_job, started_build}

abbrev idle : ActiveStore
idle = new_active_store

dispatch-window2_example :
    let b = (create_or_get build_1 idle).0 in
    let ((t, c), r) = dispatch memory_port memory_active build_1 5 (started, b) in
    let ((t', c'), r') = dispatch memory_port memory_active build_1 5 (started, idle) in
    (t ≡ t') × (r ≡ r') × (c.objects ≡ c'.objects) × (c.created ≡ c'.created)
unfolding is_dispatchable JobRunStatus-discrete
dispatch-window2_example = dispatch-window2 build_1 5 started idle build_job started_build refl
