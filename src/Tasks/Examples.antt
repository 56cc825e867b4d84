-- ===== src/Tasks/Examples.antt =====
-- Tests of `Tasks`, and its theorems at concrete inputs.
use ot_tibia_teste.Common.{◌<◌, ◌≡◌, refl, [], ◌∷◌, ◌++◌}
use ot_tibia_teste.Tasks.{
  job, Dispatcher, started, add_task, notify, shutdown, loop, lock, take_tasks, execute,
  has_expired,
}
use ot_tibia_teste.Tasks.Steps.{Reach, starts, later, adds, notifies, loops, locks, takes, executes}
use ot_tibia_teste.Tasks.Order.{Reach-Ordered}
use ot_tibia_teste.Tasks.Wakeup.{Reach-Awake}
use ot_tibia_teste.Tasks.Shutdown.{turn, turns, Finishes, shutdown-Finishes}

-- The thread waits, and a task is added whose signal has not come yet.
abbrev added : Dispatcher
added = add_task (record { expiration = 0; work = job 7 }) (lock (loop started))

Reach-added : Reach added
unfolding started loop lock
Reach-added = later (later (later starts (loops refl)) (locks refl)) (adds 0 7)

-- The signal comes, and the thread takes the task and executes it.
abbrev done : Dispatcher
done = execute 50 (take_tasks (notify added))

Reach-done : Reach done
unfolding started loop lock add_task notify take_tasks
Reach-done = later (later (later Reach-added notifies) (takes refl)) (executes 50 refl)

done_handled : (done.handled ≡ record { expiration = 0; work = job 7 } ∷ []) × (done.cycle ≡ 1)
unfolding started loop lock add_task notify take_tasks execute has_expired
done_handled = (refl, refl)

-- A task that is too old is not executed.
late_dropped : (turns 4 50 (add_task (record { expiration = 49; work = job 7 }) started)).cycle ≡ 0
unfolding turns turn started loop lock add_task take_tasks execute has_expired
late_dropped = refl

Reach-Ordered_example : done.accepted ≡ done.handled ++ done.batch ++ done.task_list
Reach-Ordered_example = Reach-Ordered Reach-done

Reach-Awake_example : 0 < added.signals
unfolding started loop lock add_task
Reach-Awake_example = Reach-Awake Reach-added refl (λ e. cc)

shutdown-Finishes_example : Finishes 50 (shutdown added)
shutdown-Finishes_example = shutdown-Finishes 50 added
