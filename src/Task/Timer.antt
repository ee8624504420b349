-- ===== src/Task/Timer.antt =====
-- src/task/timer.rs: the timer's flag, set by its interrupt, and the sleeping tasks that each
-- tick counts down. `woken` has the tasks woken so far, `errors` the number of error messages.
pub mod Ticks
pub mod Flag
mod Tests
use ferr_os.Base.{
  ℕ, ◌+◌, ◌-◌, ◌/◌, Bool, true, false, Option, none, some, List, [], ◌∷◌, ◌++◌, ltb, ◌==◌,
  if◌then◌else◌, Outcome, ok, err, panic, ◌>>=◌, expect, expect_some,
}
use ferr_os.Base.BTreeMap.{BTreeMap, get, contains_key, insert, remove}
use ferr_os.Task.{Poll, ready, pending, fetch_add}
use ferr_os.Task.Waker.{AtomicWaker, wake}

abbrev pub timer_frequency : ℕ
timer_frequency = 250

-- `tasks`: a task's ticks to go, and its waker.
pub record TimerTasksManager (W : Type 0) : Type 0 where
  pub tasks : BTreeMap (ℕ × W)

-- The statics of the file. The flag is not there before it is initialised.
pub record Timer (W : Type 0) : Type 0 where
  pub timer_flag : Option Bool
  pub waker : W
  pub manager : TimerTasksManager W
  pub next_id : ℕ
  pub woken : List ℕ
  pub errors : ℕ

-- The value before, where it was the expected one, and the value after.
abbrev pub compare_exchange : Bool → Bool → Bool → Outcome Bool × Bool
compare_exchange true true new = (ok true, new)
compare_exchange false false new = (ok false, new)
compare_exchange current _ new = (err "unexpected value", current)

abbrev pub is_ok_true : Outcome Bool → Bool
is_ok_true (ok true) = true
is_ok_true _ = false

abbrev pub checked_sub : ℕ → ℕ → Option ℕ
checked_sub a b = if ltb a b then none else some (a - b)

abbrev pub unwrap_or : Option ℕ → ℕ → ℕ
unwrap_or none d = d
unwrap_or (some n) d = n

-- The ticks that `Sleep::new` asks for.
abbrev pub timer_value : ℕ → ℕ
timer_value sleep_for_ms =
    let msec_freq = 1000 / timer_frequency in
    if ltb sleep_for_ms msec_freq then 1 else sleep_for_ms / msec_freq

module _ {W : Type 0} (atomic : AtomicWaker W) where
  unfoldable pub wake_timer : Timer W → Timer W
  wake_timer s =
      let (tasks, waker) = wake atomic s.waker in
      record s { waker = waker; woken = s.woken ++ tasks }

  unfoldable pub raise_timer : Timer W → Timer W
  unfolding wake_timer
  raise_timer s = elim s.timer_flag [
    | none ↦ s
    | some _ ↦
        let (result, flag) = compare_exchange true false true in
        wake_timer (record s {
          timer_flag = some flag;
          errors = if is_ok_true result then s.errors + 1 else s.errors;
        })
  ]

  unfoldable pub new_timer_stream : Timer W → Outcome (Timer W)
  new_timer_stream s = elim s.timer_flag [
    | none ↦ ok (record s { timer_flag = some false })
    | some _ ↦ panic
  ]

  -- The second look at the flag, after the waker is registered.
  unfoldable pub poll_again : Timer W → Outcome (Poll (Unit {0}) × Timer W)
  poll_again s = elim s.timer_flag [
    | none ↦ panic
    | some current ↦
        let (result, flag) = compare_exchange current true false in
        if is_ok_true result
        then ok
            (ready tt, record s { timer_flag = some flag; waker = (atomic.take_waker s.waker).1 })
        else ok (pending, record s { timer_flag = some flag })
  ]

  -- `early` and `late` say whether the timer's interrupt comes before the waker is registered,
  -- and between that and the second look.
  unfoldable pub poll_next : Bool → Bool → ℕ → Timer W → Outcome (Poll (Unit {0}) × Timer W)
  unfolding raise_timer poll_again
  poll_next early late task s = elim s.timer_flag [
    | none ↦ panic
    | some current ↦
        let (result, flag) = compare_exchange current true false in
        let s1 = record s { timer_flag = some flag } in
        let s2 = if early then raise_timer s1 else s1 in
        let s3 = record s2 { waker = atomic.register task s2.waker } in
        let s4 = if late then raise_timer s3 else s3 in
        if is_ok_true result then ok (ready tt, s1) else poll_again s4
  ]

  unfoldable pub register_task : TimerTasksManager W → ℕ → ℕ → Outcome (TimerTasksManager W)
  register_task self id ticks =
      if contains_key id self.tasks
      then err "Task already registered"
      else ok (record self { tasks = insert id (ticks, atomic.new_waker) self.tasks })

  -- One round of `decrement_all`: what it wakes, and the entry after.
  unfoldable pub decrement : ℕ × W → List ℕ × (ℕ × W)
  decrement (ticks, waker) =
      let left = unwrap_or (checked_sub ticks 1) 0 in
      let (tasks, taken) = wake atomic waker in
      if left == 0 then (tasks, (left, taken)) else ([], (left, waker))

  unfoldable pub decrement_entries : BTreeMap (ℕ × W) → List ℕ × BTreeMap (ℕ × W)
  unfolding decrement
  decrement_entries [] = ([], [])
  decrement_entries ((id, val) ∷ entries) =
      let (tasks, after) = decrement val in
      let (others, rest) = decrement_entries entries in (tasks ++ others, (id, after) ∷ rest)

  unfoldable pub decrement_all : Timer W → Timer W
  unfolding decrement_entries
  decrement_all s =
      let (tasks, after) = decrement_entries (s.manager.tasks) in
      record s { manager = record { tasks = after }; woken = s.woken ++ tasks }

  unfoldable pub check_task : TimerTasksManager W → ℕ → Outcome (Bool × TimerTasksManager W)
  check_task self id = do
    val ← expect_some (get id self.tasks)
    if val.0 == 0 then ok (true, record self { tasks = remove id self.tasks }) else ok (false, self)

  unfoldable pub register_waker : TimerTasksManager W → ℕ → ℕ → Outcome (TimerTasksManager W)
  register_waker self id task = do
    val ← expect_some (get id self.tasks)
    ok (record self { tasks = insert id (val.0, atomic.register task val.1) self.tasks })

  -- A `Sleep` is the identifier of its entry.
  unfoldable pub new_sleep : ℕ → Timer W → Outcome (ℕ × Timer W)
  unfolding register_task
  new_sleep sleep_for_ms s = do
    let (id, next_id) = fetch_add s.next_id
    manager ← expect (register_task s.manager id (timer_value sleep_for_ms))
    ok (id, record s { manager = manager; next_id = next_id })

  unfoldable pub poll_sleep : ℕ → ℕ → Timer W → Outcome (Poll (Unit {0}) × Timer W)
  unfolding check_task register_waker
  poll_sleep task_id task s = do
    (done, manager) ← expect (check_task s.manager task_id)
    if done then ok (ready tt, record s { manager = manager }) else do
      registered ← expect (register_waker manager task_id task)
      ok (pending, record s { manager = registered })
