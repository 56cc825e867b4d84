-- ===== src/Tasks/Wakeup.antt =====
-- src/tasks.cpp: no signal is lost.
use ot_tibia_teste.Common.{◌<◌, ◌≡◌, ◌≢◌, refl, ◌⊎◌, inl, [], arith}
use ot_tibia_teste.Tasks.{
  Dispatcher, waiting, started, add_task, notify, stop, shutdown, loop, lock, take_tasks, execute,
}
use ot_tibia_teste.Tasks.Steps.{
  Step, adds, notifies, stops, shuts_down, loops, locks, wakes, takes, executes, Reach, starts,
  later,
}

-- Where tasks are queued, the thread does not wait, or a signal is still to come.
abbrev Awake : Dispatcher → Type 0
Awake d = (d.task_list ≡ []) ⊎ (d.place ≢ waiting) ⊎ (0 < d.signals)

Step-Awake : {d e : Dispatcher} → Step d e → Awake d → Awake e
unfolding add_task notify stop shutdown loop lock take_tasks execute
Step-Awake {d} (adds expiration n) h = ground arith
Step-Awake {d} notifies h = ground arith
Step-Awake stops h = h
Step-Awake {d} shuts_down h = ground arith
Step-Awake {d} (loops at) h = ground arith
Step-Awake {d} (locks at) h = ground arith
Step-Awake {d} (wakes at) h = ground arith
Step-Awake {d} (takes at) h = ground arith
Step-Awake {d} (executes now at) h = ground arith

-- Whatever the threads do: while the thread waits and a task is queued, a signal is still to come.
pub Reach-Awake : {d : Dispatcher} → Reach d → d.place ≡ waiting → d.task_list ≢ [] → 0 < d.signals
unfolding started
Reach-Awake {d} r at some_queued = ground (arith, go r)
  where
    go : {d : Dispatcher} → Reach d → Awake d
    go starts = inl refl
    go (later r s) = Step-Awake s (go r)
