-- ===== src/Tasks/Steps.antt =====
-- src/tasks.cpp: what the threads do, in any order that the lock and the signal allow.
use ot_tibia_teste.Common.{ℕ, ◌≡◌}
use ot_tibia_teste.Tasks.{
  Dispatcher, job, looping, locking, waiting, woken, executing, started, add_task, notify, stop,
  shutdown, loop, lock, take_tasks, execute,
}

-- Anyone adds tasks, signals what was added, closes or shuts down. The thread goes on from its place;
-- it may also wake without a signal.
pub data Step (d : Dispatcher) : Dispatcher → Type 0 where
  adds : (expiration n : ℕ) → Step d (add_task (record { expiration = expiration; work = job n }) d)
  notifies : Step d (notify d)
  stops : Step d (stop d)
  shuts_down : Step d (shutdown d)
  loops : d.place ≡ looping → Step d (loop d)
  locks : d.place ≡ locking → Step d (lock d)
  wakes : d.place ≡ waiting → Step d (record d { place = woken })
  takes : d.place ≡ woken → Step d (take_tasks d)
  executes : (now : ℕ) → d.place ≡ executing → Step d (execute now d)

pub data Reach : Dispatcher → Type 0 where
  starts : Reach started
  later : {d e : Dispatcher} → Reach d → Step d e → Reach e
