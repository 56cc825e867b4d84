-- ===== src/Tasks/Shutdown.antt =====
-- src/tasks.cpp: after `shutdown` the thread of the dispatcher ends.
use ot_tibia_teste.Common.{
  ℕ, zero, suc, ◌≡◌, ◌≢◌, refl, List, [], ◌∷◌, ◌++◌, Bool, true, false, ◌||◌, ◌==◌, arith, ◌⊎◌, inl,
  inr,
}
use ot_tibia_teste.Tasks.{
  Task, job, terminate, Dispatcher, ThreadState, Place, running, closing, terminated, looping,
  locking, waiting, woken, executing, finished, shutdown, loop, lock, take_tasks, execute, wake,
  shutdown_task, has_expired,
}

state_cases : (s : ThreadState) → (s ≡ terminated) ⊎ (s ≢ terminated)
state_cases running = inr (λ e. cc)
state_cases closing = inr (λ e. cc)
state_cases terminated = inl refl

-- What the thread does next, at this time. It stays in the wait.
unfoldable pub turn : ℕ → Dispatcher → Dispatcher
turn now d = elim d.place [
  | looping ↦ loop d
  | locking ↦ lock d
  | waiting ↦ d
  | woken ↦ take_tasks d
  | executing ↦ execute now d
  | finished ↦ d
]

unfoldable pub turns : ℕ → ℕ → Dispatcher → Dispatcher
turns zero now d = d
turns (suc n) now d = turns n now (turn now d)

-- The task ends the thread.
abbrev ends : Task → Bool
ends t = elim t.work [ job n ↦ false | terminate ↦ t.expiration == 0 ]

abbrev ends_some : List Task → Bool
ends_some [] = false
ends_some (t ∷ ts) = ends t || ends_some ts

-- The thread, left to itself, comes to its end.
abbrev pub Finishes : ℕ → Dispatcher → Type 0
Finishes now d = (n : ℕ) × ((turns n now d).place ≡ finished)

before : (now : ℕ) (d : Dispatcher) → Finishes now (turn now d) → Finishes now d
unfolding turns
before now d (n, h) = (suc n, h)

terminated_finishes :
    (now : ℕ) (d : Dispatcher) → d.place ≡ looping → d.state ≡ terminated → Finishes now d
unfolding turns turn loop
terminated_finishes now d at over = (1, rw (at, over) refl)

-- The tasks that the thread has taken end it, or have ended it.
batch_ends :
    (now : ℕ) (batch : List Task) (d : Dispatcher)
    → d.place ≡ executing
    → d.batch ≡ batch
    → (ends_some batch ≡ true) ⊎ (d.state ≡ terminated)
    → Finishes now d
unfolding turn execute has_expired
batch_ends now [] d at e h =
    before now d (terminated_finishes now (turn now d) (ground arith) (ground arith))
batch_ends now (t ∷ ts) d at e h =
    before now d (batch_ends now ts (turn now d) (ground arith) (ground arith) (ground arith))

take_ends :
    (now : ℕ) (d : Dispatcher) → d.place ≡ woken → ends_some d.task_list ≡ true → Finishes now d
unfolding turn take_tasks
take_ends now d at h =
    before now d
      (batch_ends now d.task_list (turn now d) (ground arith) (ground arith) (ground arith))

lock_ends :
    (now : ℕ) (d : Dispatcher) → d.place ≡ locking → ends_some d.task_list ≡ true → Finishes now d
unfolding turn lock take_tasks
lock_ends now d at h =
    before now d
      (batch_ends now d.task_list (turn now d) (ground arith) (ground arith) (ground arith))

-- A task that ends the thread is in the queue.
loop_ends :
    (now : ℕ) (d : Dispatcher) → d.place ≡ looping → ends_some d.task_list ≡ true → Finishes now d
unfolding turn loop lock take_tasks
loop_ends now d at h = elim (state_cases d.state) [
  | inl over ↦ terminated_finishes now d at over
  | inr goes ↦ before now d (lock_ends now (turn now d) (ground arith) (ground arith))
]

batch_passes :
    (now : ℕ) (batch : List Task) (d : Dispatcher)
    → d.place ≡ executing
    → d.batch ≡ batch
    → ends_some d.task_list ≡ true
    → Finishes now d
unfolding turn execute
batch_passes now [] d at e h =
    before now d (loop_ends now (turn now d) (ground arith) (ground arith))
batch_passes now (t ∷ ts) d at e h =
    before now d (batch_passes now ts (turn now d) (ground arith) (ground arith) (ground arith))

snoc_ends : (ts : List Task) → ends_some (ts ++ shutdown_task ∷ []) ≡ true
snoc_ends [] = refl
snoc_ends (t ∷ ts) = ground (arith, snoc_ends ts)

place_ends :
    (now : ℕ) (p : Place) (d : Dispatcher)
    → d.place ≡ wake p
    → ends_some d.task_list ≡ true
    → Finishes now d
unfolding turns
place_ends now looping d at h = loop_ends now d at h
place_ends now locking d at h = lock_ends now d at h
place_ends now waiting d at h = take_ends now d at h
place_ends now woken d at h = take_ends now d at h
place_ends now executing d at h = batch_passes now d.batch d at refl h
place_ends now finished d at h = (0, at)

-- Whatever the thread is about when `shutdown` is called, and whatever the state is: left to itself, it
-- comes to its end.
pub shutdown-Finishes : (now : ℕ) (d : Dispatcher) → Finishes now (shutdown d)
unfolding shutdown
shutdown-Finishes now d = place_ends now d.place (shutdown d) refl (snoc_ends d.task_list)
