-- ===== src/Task/Executor.antt =====
-- src/task/executor.rs: the executor of tasks. A future is a parameter: polling it gives a
-- result, the future after it, and the queue, to which it or an interrupt may add tasks; or it
-- panics, as a wake does where the queue is full.
pub mod Rounds
mod Tests
use ferr_os.Base.{
  ℕ, zero, suc, Bool, none, some, List, [], ◌∷◌, if◌then◌else◌, Outcome, ok, panic, hang, ◌>>=◌,
  expect_some,
}
use ferr_os.Base.BTreeMap.{BTreeMap, get, contains_key, insert, remove}
use ferr_os.Task.{Poll, ready, pending}
use ferr_os.Task.Queue.{ArrayQueue}

-- A cached waker is the identifier of the task that it queues.
pub record Executor (F Q : Type 0) : Type 0 where
  pub tasks : BTreeMap F
  pub task_queue : Q
  pub waker_cache : BTreeMap ℕ

module _ {F Q : Type 0} (array_queue : ArrayQueue Q)
    (poll : ℕ → F → Q → Outcome (Poll (Unit {0}) × (F × Q))) where
  abbrev pub new_executor : Executor F Q
  new_executor = record { tasks = []; task_queue = array_queue.new_queue 100; waker_cache = [] }

  -- `TaskWaker::wake_task`; a full queue is a panic.
  unfoldable pub wake_task : ℕ → Q → Outcome Q
  wake_task task_id queue = expect_some (array_queue.push task_id queue)

  unfoldable pub spawn : ℕ → F → Executor F Q → Outcome (Executor F Q)
  unfolding wake_task
  spawn task_id task self = if contains_key task_id self.tasks then panic else (do
    queue ← wake_task task_id self.task_queue
    ok (record self { tasks = insert task_id task self.tasks; task_queue = queue }))

  -- The waker that is in the cache, or a new one; and the cache after.
  unfoldable pub or_insert_with : ℕ → BTreeMap ℕ → ℕ × BTreeMap ℕ
  or_insert_with task_id cache = elim (get task_id cache) [
    | none ↦ (task_id, insert task_id task_id cache)
    | some waker ↦ (waker, cache)
  ]

  -- The `match` on what polling the task gave.
  unfoldable pub finish_poll :
      ℕ → BTreeMap ℕ → Poll (Unit {0}) × (F × Q) → Executor F Q → Executor F Q
  finish_poll task_id cache (ready _, (after, queue)) self = record {
    tasks = remove task_id self.tasks;
    task_queue = queue;
    waker_cache = remove task_id cache;
  }
  finish_poll task_id cache (pending, (after, queue)) self = record {
    tasks = insert task_id after self.tasks;
    task_queue = queue;
    waker_cache = cache;
  }

  -- One round of the loop, for the task that was taken from the queue.
  unfoldable pub run_task : ℕ → Executor F Q → Outcome (Executor F Q)
  unfolding or_insert_with finish_poll
  run_task task_id self = elim (get task_id self.tasks) [
    | none ↦ ok self
    | some task ↦
        let (waker, cache) = or_insert_with task_id self.waker_cache in
        (do result ← poll waker task self.task_queue; ok (finish_poll task_id cache result self))
  ]

  -- `hang` is what more rounds than the fuel allows give.
  unfoldable pub run_ready_tasks : ℕ → Executor F Q → Outcome (Executor F Q)
  unfolding run_task
  run_ready_tasks zero self = hang
  run_ready_tasks (suc fuel) self = elim (array_queue.pop self.task_queue) [
    | none ↦ ok self
    | some (task_id, queue) ↦ (do
      after ← run_task task_id (record self { task_queue = queue })
      run_ready_tasks fuel after)
  ]

  -- Whether the processor is halted until the next interrupt.
  unfoldable pub sleep_if_idle : Executor F Q → Bool
  sleep_if_idle self = array_queue.is_empty self.task_queue

  -- One entry for each round before `STOP` is set: what interrupts do to the queue at its end.
  unfoldable pub run : ℕ → List (Q → Q) → Executor F Q → Outcome (Executor F Q)
  unfolding run_ready_tasks
  run fuel [] self = ok self
  run fuel (interrupts ∷ rounds) self = do
    after ← run_ready_tasks fuel self
    run fuel rounds (record after { task_queue = interrupts after.task_queue })
