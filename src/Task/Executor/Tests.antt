-- ===== src/Task/Executor/Tests.antt =====
-- The executor at work: a task that is done at its second poll.
use ferr_os.Base.{Outcome}
use ferr_os.Base.{ℕ, zero, suc, ◌≤◌, ◌<◌, ◌≡◌, refl, ◌≢◌, ◌⊎◌, none, some, List, [], ◌∷◌, ok, panic}
use ferr_os.Base.BTreeMap.{get, insert}
use ferr_os.Task.{Poll, ready, pending}
use ferr_os.Task.Queue.Instance.{list_queue, list_queue-IsArrayQueue}
use ferr_os.Task.Executor.{
  Executor, new_executor, spawn, run_ready_tasks, run_task, or_insert_with, finish_poll,
}
use ferr_os.Task.Executor.Rounds.{IsClean, spawn_lem, run_ready_tasks-IsClean}

-- A future is the number of polls that it needs.
abbrev count_polls : ℕ → ℕ → ℕ × List ℕ → Outcome (Poll (Unit {0}) × (ℕ × (ℕ × List ℕ)))
count_polls waker zero queue = ok (ready tt, (zero, queue))
count_polls waker (suc n) queue = ok (pending, (n, queue))

abbrev empty_executor : Executor ℕ (ℕ × List ℕ)
empty_executor = new_executor list_queue count_polls

spawn_test :
    ((0 < 100) × (get 3 empty_executor.tasks ≡ none)
      → (self' : Executor ℕ (ℕ × List ℕ)) × (spawn list_queue count_polls 3 1 empty_executor
          ≡ ok self')
        × IsClean self'
        × (get 3 self'.tasks ≡ some 1)
        × (self'.task_queue.1 ≡ 3 ∷ []))
    × ((100 ≤ 0) ⊎ (get 3 empty_executor.tasks ≢ none)
        → spawn list_queue count_polls 3 1 empty_executor ≡ panic)
unfolding list_queue-IsArrayQueue get
spawn_test =
    spawn_lem list_queue count_polls list_queue-IsArrayQueue 3 1 empty_executor (λ k _. refl)

abbrev spawned : Executor ℕ (ℕ × List ℕ)
spawned = record { tasks = (3, 1) ∷ []; task_queue = (100, 3 ∷ []); waker_cache = [] }

abbrev polled : Executor ℕ (ℕ × List ℕ)
polled = record { tasks = (3, 0) ∷ []; task_queue = (100, []); waker_cache = (3, 3) ∷ [] }

run_ready_tasks_example : IsClean polled × (list_queue.pop polled.task_queue ≡ none)
unfolding run_ready_tasks run_task or_insert_with get insert finish_poll
run_ready_tasks_example =
    run_ready_tasks-IsClean list_queue count_polls 2 spawned polled (λ k _. refl) refl
