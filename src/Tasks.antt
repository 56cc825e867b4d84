-- ===== src/Tasks.antt =====
-- src/tasks.h, src/tasks.cpp, src/thread_holder_base.h: the dispatcher, its queue of tasks, and the
-- thread that takes them from it. Each function here is what one thread does without another coming
-- between: under the lock, or on one atomic variable.
pub mod Steps
pub mod Order
pub mod Wakeup
pub mod Shutdown
mod Examples
use ot_tibia_teste.Common.{
  ℕ, zero, suc, ◌+◌, List, [], ◌∷◌, ◌++◌, Bool, true, false, ltb, ◌==◌, if◌then◌else◌,
}
use ot_tibia_teste.Common.Words.{u64}

pub data ThreadState : Type 0 where
  running closing terminated : ThreadState

-- What a task does: a job of the game, which has a number here, or the end that `shutdown` queues.
pub data Work : Type 0 where
  job : ℕ → Work
  terminate : Work

-- `SYSTEM_TIME_ZERO` is 0.
pub record Task : Type 0 where
  pub expiration : ℕ
  pub work : Work

unfoldable pub has_expired : ℕ → Task → Bool
has_expired now t = if t.expiration == 0 then false else ltb t.expiration now

-- Where the thread is in `threadMain`: before it reads the state, before it takes the lock, in the wait
-- for a signal, woken from it, among the tasks that it took, or at the end.
pub data Place : Type 0 where
  looping locking waiting woken executing finished : Place

-- `batch` is `tmpTaskList` from the next task on. `signals` counts the calls of `notify_one` that are
-- still to come of those who have added a task. `accepted` and `handled` are the history: the tasks
-- that were queued, and those that the thread is done with, executed or expired.
pub record Dispatcher : Type 0 where
  pub state : ThreadState
  pub task_list : List Task
  pub batch : List Task
  pub place : Place
  pub cycle : ℕ
  pub signals : ℕ
  pub accepted : List Task
  pub handled : List Task

-- `start`
unfoldable pub started : Dispatcher
started = record {
  state = running;
  task_list = [];
  batch = [];
  place = looping;
  cycle = 0;
  signals = 0;
  accepted = [];
  handled = [];
}

abbrev pub push : Task → Dispatcher → Dispatcher
push t d = record d { task_list = d.task_list ++ t ∷ []; accepted = d.accepted ++ t ∷ [] }

abbrev pub signal_due : List Task → ℕ → ℕ
signal_due [] signals = suc signals
signal_due (t ∷ ts) signals = signals

-- `addTask` under the lock. Its signal comes later, in `notify`.
unfoldable pub add_task : Task → Dispatcher → Dispatcher
add_task t d = elim d.state [
  | running ↦ record (push t d) { signals = signal_due d.task_list d.signals }
  | closing ↦ d
  | terminated ↦ d
]

abbrev pub wake : Place → Place
wake waiting = woken
wake looping = looping
wake locking = locking
wake woken = woken
wake executing = executing
wake finished = finished

-- `taskSignal.notify_one()` of an `addTask`.
unfoldable pub notify : Dispatcher → Dispatcher
notify d = elim d.signals [ zero ↦ d | suc n ↦ record d { signals = n; place = wake d.place } ]

-- `stop`
unfoldable pub stop : Dispatcher → Dispatcher
stop d = record d { state = closing }

abbrev pub shutdown_task : Task
shutdown_task = record { expiration = 0; work = terminate }

unfoldable pub shutdown : Dispatcher → Dispatcher
shutdown d = record (push shutdown_task d) { place = wake d.place }

-- The condition of the loop of `threadMain`.
unfoldable pub loop : Dispatcher → Dispatcher
loop d = elim d.state [
  | running ↦ record d { place = locking }
  | closing ↦ record d { place = locking }
  | terminated ↦ record d { place = finished }
]

-- The swap, and the end of the lock.
unfoldable pub take_tasks : Dispatcher → Dispatcher
take_tasks d = record d { batch = d.task_list; task_list = d.batch; place = executing }

-- From the lock to the wait, which gives it back, or to the swap.
unfoldable pub lock : Dispatcher → Dispatcher
unfolding take_tasks
lock d = elim d.task_list [ [] ↦ record d { place = waiting } | t ∷ ts ↦ take_tasks d ]

abbrev pub perform : Work → ThreadState → ThreadState
perform (job n) state = state
perform terminate state = terminated

-- One turn of the loop over the tasks that were taken, or its end.
unfoldable pub execute : ℕ → Dispatcher → Dispatcher
unfolding has_expired
execute now d = elim d.batch [
  | [] ↦ record d { place = looping }
  | t ∷ rest ↦
      let done = record d { batch = rest; handled = d.handled ++ t ∷ [] } in
      if has_expired now t
      then done
      else record done { cycle = u64 (suc d.cycle); state = perform t.work d.state }
]
