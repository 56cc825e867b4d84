-- ===== src/Tasks/Order.antt =====
-- src/tasks.cpp: every task that was queued is handled once, in the order of the queue.
use ot_tibia_teste.Common.{
  ℕ, ◌≡◌, refl, ◌⊎◌, inl, inr, List, [], ◌∷◌, ◌++◌, arith, List-cases, Bool-cases,
}
use mathlib.Core.List.{append_assoc, append-nil}
use ot_tibia_teste.Tasks.{
  Task, Dispatcher, locking, executing, started, add_task, notify, stop, shutdown, loop, lock,
  take_tasks, job, shutdown_task, has_expired, execute,
}
use ot_tibia_teste.Tasks.Steps.{
  Step, adds, notifies, stops, shuts_down, loops, locks, wakes, takes, executes, Reach, starts,
  later,
}

-- Only among the tasks that it took has the thread any left.
abbrev pub Ordered : Dispatcher → Type 0
Ordered d =
    (d.accepted ≡ d.handled ++ d.batch ++ d.task_list) × ((d.batch ≡ []) ⊎ (d.place ≡ executing))

after_push :
    (a h b q : List Task) (t : Task) → a ≡ h ++ b ++ q → a ++ t ∷ [] ≡ h ++ b ++ (q ++ t ∷ [])
after_push a h b q t e = rw (e, append_assoc (h ++ b) q (t ∷ [])) refl

after_take : (a h b q : List Task) → a ≡ h ++ b ++ q → b ≡ [] → a ≡ h ++ q ++ b
after_take a h b q e n = rw (e, n, append-nil h, append-nil (h ++ q)) refl

lock-Ordered : (d : Dispatcher) → d.place ≡ locking → Ordered d → Ordered (lock d)
unfolding lock take_tasks
lock-Ordered d at (h, k) =
    let left : d.batch ≡ [] = ground arith in
    elim (List-cases d.task_list) [
      | inl e ↦ ground arith
      | inr (t, ts, e) ↦
          let taken = after_take d.accepted d.handled d.batch d.task_list h left in
          rw e (rw (← e) taken, inr refl)
    ]

execute-Ordered :
    (now : ℕ) (d : Dispatcher) → d.place ≡ executing → Ordered d → Ordered (execute now d)
unfolding execute
execute-Ordered now d at (h, k) = elim (List-cases d.batch) [
  | inl e ↦ rw e (rw (← e) h, inl refl)
  | inr (t, rest, e) ↦
      let moved = append_assoc d.handled (t ∷ []) rest in
      let kept : d.accepted ≡ d.handled ++ t ∷ [] ++ rest ++ d.task_list = rw (moved, ← e) h in
      elim (Bool-cases (has_expired now t)) [
        | inl old ↦ rw (e, old) (kept, inr at)
        | inr young ↦ rw (e, young) (kept, inr at)
      ]
]

Step-Ordered : {d e : Dispatcher} → Step d e → Ordered d → Ordered e
unfolding add_task notify stop shutdown loop lock take_tasks execute
Step-Ordered {d} (adds expiration n) (h, k) = ground (
  arith,
  after_push d.accepted d.handled d.batch d.task_list
      (record { expiration = expiration; work = job n }) h,
)
Step-Ordered {d} notifies (h, k) = ground arith
Step-Ordered stops (h, k) = (h, k)
Step-Ordered {d} shuts_down (h, k) =
    ground (arith, after_push d.accepted d.handled d.batch d.task_list shutdown_task h)
Step-Ordered {d} (loops at) (h, k) = ground arith
Step-Ordered {d} (locks at) h = lock-Ordered d at h
Step-Ordered {d} (wakes at) (h, k) = ground arith
Step-Ordered {d} (takes at) (h, k) =
    ground (arith, after_take d.accepted d.handled d.batch d.task_list h)
Step-Ordered {d} (executes now at) h = execute-Ordered now d at h

-- Whatever the threads do: the tasks that were queued are, in their order, those that the thread is
-- done with, those that it has taken, and those that wait.
pub Reach-Ordered : {d : Dispatcher} → Reach d → d.accepted ≡ d.handled ++ d.batch ++ d.task_list
unfolding started
Reach-Ordered r = (go r).0
  where
    go : {d : Dispatcher} → Reach d → Ordered d
    go starts = (refl, inl refl)
    go (later r s) = Step-Ordered s (go r)
