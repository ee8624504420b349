-- ===== src/Task/Executor/Rounds.antt =====
-- The executor's rounds: no waker outlives its task, and where the loop ends the queue is empty.
use ferr_os.Base.{>>=-eq-ok}
use ferr_os.Base.{Outcome}
use ferr_os.Base.{
  ℕ, zero, suc, ◌≤◌, ◌<◌, ◌≡◌, sym, ap, ◌∙◌, ◌≢◌, ◌⊎◌, inl, inr, none, some, [], ◌∷◌, ◌++◌, arith,
  ◌==◌, ==_iff, Bool-cases, Option-cases, length, ok, panic,
}
use ferr_os.Base.BTreeMap.{
  BTreeMap, get, insert, remove, contains_key, get-insert_self, get-insert_ne, get-remove_self,
  get-remove_ne,
}
use mathlib.Core.Path.{subst}
use ferr_os.Task.{Poll, ready, pending}
use ferr_os.Task.Queue.{ArrayQueue, IsArrayQueue}
use ferr_os.Task.Executor.{
  Executor, spawn, wake_task, or_insert_with, finish_poll, run_task, run_ready_tasks,
}

-- No waker is cached for a task that is not there.
abbrev pub IsClean : {F Q : Type 0} → Executor F Q → Type 0
IsClean self = (k : ℕ) → get k self.tasks ≡ none → get k self.waker_cache ≡ none

same_key :
    {A : Type 0} (m : BTreeMap A) (k j : ℕ) (a : A)
    → get j (insert k a m) ≡ none
    → (k ≢ j) × (get j m ≡ none)
same_key m k j a e = elim (Bool-cases (k == j)) [
  | inl same ↦ absurd (cc ((==_iff k j).0 same, e, get-insert_self m k a))
  | inr different ↦
      let apart : j ≢ k = λ p. cc (different, (==_iff k j).1 (sym p)) in
      (λ p. apart (sym p), sym (get-insert_ne m k j a apart) ∙ e)
]

removed : {A : Type 0} (m : BTreeMap A) (k j : ℕ) → get j m ≡ none → get j (remove k m) ≡ none
removed m k j e = elim (Bool-cases (k == j)) [
  | inl same ↦ ap (λ i. get i (remove k m)) (sym ((==_iff k j).0 same)) ∙ get-remove_self m k
  | inr different ↦ get-remove_ne m k j (λ p. cc (different, (==_iff k j).1 (sym p))) ∙ e
]

module _ {F Q : Type 0} (array_queue : ArrayQueue Q)
    (poll : ℕ → F → Q → Outcome (Poll (Unit {0}) × (F × Q))) where
  cached :
      (id k : ℕ) (cache : BTreeMap ℕ)
      → id ≢ k
      → get k cache ≡ none
      → get k (or_insert_with array_queue poll id cache).1 ≡ none
  unfolding or_insert_with
  cached id k cache apart e = ground (arith, get-insert_ne cache id k id (λ p. apart (sym p)))

  finish_poll-IsClean :
      (id : ℕ) (result : Poll (Unit {0}) × (F × Q)) (self : Executor F Q)
      → IsClean self
      → IsClean (
          finish_poll array_queue poll id
            (or_insert_with array_queue poll id self.waker_cache).1
            result
            self)
  unfolding finish_poll
  finish_poll-IsClean id (ready _, (after, queue)) self clean k gone = elim (Bool-cases (k == id)) [
    | inl same ↦
        ap (λ i. get i (remove id (or_insert_with array_queue poll id self.waker_cache).1))
          ((==_iff k id).0 same)
        ∙ get-remove_self _ id
    | inr different ↦
        let apart : k ≢ id = λ p. cc (different, (==_iff k id).1 p) in
        removed _ id k (
          cached id k self.waker_cache (λ p. apart (sym p))
            (clean k (sym (get-remove_ne self.tasks id k apart) ∙ gone)))
  ]
  finish_poll-IsClean id (pending, (after, queue)) self clean k gone =
      let (apart, absent) = same_key self.tasks id k after gone in
      cached id k self.waker_cache apart (clean k absent)

  run_task-IsClean :
      (id : ℕ) (self after : Executor F Q)
      → IsClean self
      → run_task array_queue poll id self ≡ ok after
      → IsClean after
  unfolding run_task
  run_task-IsClean id self after clean e = elim (Option-cases (get id self.tasks)) [
    | inl missing ↦
        let same : self ≡ after = cc (rw (missing, run_task) at e) in subst IsClean same clean
    | inr (task, found) ↦
        let (waker, cache) = or_insert_with array_queue poll id self.waker_cache in
        let (result, _, done) =
          >>=-eq-ok (poll waker task self.task_queue)
            (λ result. ok (finish_poll array_queue poll id cache result self))
            (rw (found, run_task) at e) in
        let ends : finish_poll array_queue poll id cache result self ≡ after = cc done in
        subst IsClean ends (finish_poll-IsClean id result self clean)
  ]

  -- Where no waker is cached for a task that is not there, this still holds when the executor's
  -- loop has ended, whatever the futures do; and the queue is empty then.
  pub run_ready_tasks-IsClean :
      (fuel : ℕ) (self self' : Executor F Q)
      → IsClean self
      → run_ready_tasks array_queue poll fuel self ≡ ok self'
      → IsClean self' × (array_queue.pop self'.task_queue ≡ none)
  unfolding run_ready_tasks
  run_ready_tasks-IsClean zero self self' clean e = cc
  run_ready_tasks-IsClean (suc fuel) self self' clean e =
      elim (Option-cases (array_queue.pop self.task_queue)) [
        | inl empty ↦
            let same : self ≡ self' = cc (rw (empty, run_ready_tasks) at e) in
            (
              subst IsClean same clean,
              ap (λ (x : Executor F Q). array_queue.pop x.task_queue) (sym same) ∙ empty,
            )
        | inr ((id, queue), some_) ↦
            let (after, ran, rest) =
              >>=-eq-ok (run_task array_queue poll id (record self { task_queue = queue }))
                (λ after. run_ready_tasks array_queue poll fuel after)
                (rw (some_, run_ready_tasks) at e) in
            run_ready_tasks-IsClean fuel after self'
              (run_task-IsClean id (record self { task_queue = queue }) after clean ran) rest
      ]

  -- Where no waker is cached for a task that is not there: spawning a task with a new
  -- identifier, where the queue has room, keeps that, and makes the task the last one of the
  -- queue. With an identifier that is in use, or a full queue, spawning panics.
  pub spawn_lem :
      (law : IsArrayQueue array_queue) (id : ℕ) (task : F) (self : Executor F Q)
      → IsClean self
      → ((length (law.elements self.task_queue) < law.capacity self.task_queue)
            × (get id self.tasks ≡ none)
          → (self' : Executor F Q) × (spawn array_queue poll id task self ≡ ok self')
            × IsClean self'
            × (get id self'.tasks ≡ some task)
            × (law.elements self'.task_queue ≡ law.elements self.task_queue ++ id ∷ []))
        × ((law.capacity self.task_queue ≤ length (law.elements self.task_queue))
              ⊎ (get id self.tasks ≢ none)
            → spawn array_queue poll id task self ≡ panic)
  unfolding spawn wake_task contains_key
  spawn_lem law id task self clean = (
    λ (room, absent).
        let (q, pushed, elements, capacity) = law.push-room id self.task_queue room in
        (
          record self { tasks = insert id task self.tasks; task_queue = q },
          ground (arith, absent, pushed),
          λ k gone. clean k (same_key self.tasks id k task gone).1,
          get-insert_self self.tasks id task,
          elements,
        ),
    λ refused. elim refused [
      | inl full ↦ let p = law.push-full id self.task_queue full in ground (arith, p)
      | inr present ↦ elim (Option-cases (get id self.tasks)) [
        | inl absent ↦ absurd (present absent)
        | inr (t, found) ↦ ground (arith, found)
      ]
    ],
  )
