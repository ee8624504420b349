-- ===== src/Task/Timer/Ticks.antt =====
-- A sleeping task's count: each tick takes one off, whatever other tasks do in between.
use ferr_os.Base.{
  ℕ, suc, ◌-◌, ◌≡◌, ap, ◌∙◌, ◌≢◌, inl, inr, Option, none, some, List, [], ◌∷◌, arith, leb, ◌==◌,
  if◌then◌else◌, ==_iff, Bool-cases, Option-cases, All, Outcome, ok, ◌>>=◌,
}
use ferr_os.Base.{>>=-eq-ok}
use ferr_os.Base.BTreeMap.{
  BTreeMap, get, insert, remove, get-insert_self, get-insert_ne, get-remove_ne, contains_key,
}
use mathlib.Core.Path.{subst}
use ferr_os.Base.{ap, ◌∙◌}
use ferr_os.Base.{Option-cases, ==_iff, ◌==◌, ap}
use ferr_os.Task.{ready, pending}
use ferr_os.Task.Waker.{AtomicWaker}
use ferr_os.Task.Timer.{
  Timer, decrement, decrement_entries, decrement_all, new_sleep, poll_sleep, register_task,
  check_task, register_waker, timer_value,
}

-- What happens to the timer: a tick, a new `Sleep`, or a poll of one for a task.
pub data Event : Type 0 where
  tick : Event
  start : ℕ → Event
  poll : ℕ → ℕ → Event

unfoldable pub ticks : List Event → ℕ
ticks [] = 0
ticks (tick ∷ events) = suc (ticks events)
ticks (_ ∷ events) = ticks events

abbrev pub IsQuiet : ℕ → Event → Type 0
IsQuiet id (poll other task) = id ≢ other
IsQuiet id _ = Unit

minus_ticks :
    (e : Event) (events : List Event) (count : ℕ)
    → count - ticks (e ∷ []) - ticks events ≡ count - ticks (e ∷ events)
unfolding ticks
minus_ticks tick events count = omega arith
minus_ticks (start ms) events count = omega arith
minus_ticks (poll id task) events count = omega arith

module _ {W : Type 0} (atomic : AtomicWaker W) where
  unfoldable pub step : Event → Timer W → Outcome (Timer W)
  unfolding decrement_all new_sleep poll_sleep
  step tick s = ok (decrement_all atomic s)
  step (start ms) s = do (id, s') ← new_sleep atomic ms s; ok s'
  step (poll id task) s = do (result, s') ← poll_sleep atomic id task s; ok s'

  unfoldable pub run : List Event → Timer W → Outcome (Timer W)
  unfolding step
  run [] s = ok s
  run (e ∷ events) s = step e s >>= run events

  -- The ticks that an entry has to go.
  abbrev pub count_of : Option (ℕ × W) → Option ℕ
  count_of none = none
  count_of (some (count, waker)) = some count

  abbrev pub ticks_left : ℕ → Timer W → Option ℕ
  ticks_left id s = count_of (get id (s.manager.tasks))

  decremented :
      (m : BTreeMap (ℕ × W)) (id count : ℕ)
      → count_of (get id m) ≡ some count
      → count_of (get id (decrement_entries atomic m).1) ≡ some (count - 1)
  unfolding get decrement_entries decrement
  decremented [] id count e = cc
  decremented ((k, (c, v)) ∷ m) id count e = ground (arith, decremented m id count)

  started :
      (id count ms : ℕ) (s s' : Timer W)
      → ticks_left id s ≡ some count
      → step (start ms) s ≡ ok s'
      → ticks_left id s' ≡ some count
  unfolding step new_sleep register_task contains_key
  started id count ms s s' at e = elim (Bool-cases (id == s.next_id)) [
    | inl same ↦ let equal = (==_iff id s.next_id).0 same in ground arith
    | inr different ↦ ground (
      arith,
      get-insert_ne (s.manager.tasks) s.next_id id (timer_value ms, atomic.new_waker)
          (λ p. cc (different, (==_iff id s.next_id).1 p)),
    )
  ]

  polled :
      (id count other task : ℕ) (s s' : Timer W)
      → ticks_left id s ≡ some count
      → step (poll other task) s ≡ ok s'
      → id ≢ other
      → ticks_left id s' ≡ some count
  unfolding step poll_sleep check_task register_waker
  polled id count other task s s' at e q = elim (Option-cases (get other (s.manager.tasks))) [
    | inl missing ↦ absurd (cc (rw missing at e))
    | inr (v, found) ↦ ground (
      arith,
      get-remove_ne (s.manager.tasks) other id q,
      get-insert_ne (s.manager.tasks) other id (v.0, atomic.register task v.1) q,
    )
  ]

  step_quiet :
      (e : Event) (id count : ℕ) (s s' : Timer W)
      → ticks_left id s ≡ some count
      → step e s ≡ ok s'
      → IsQuiet id e
      → ticks_left id s' ≡ some (count - ticks (e ∷ []))
  unfolding step ticks decrement_all
  step_quiet tick id count s s' at e q =
      let after : decrement_all atomic s ≡ s' = cc in
      subst (λ (x : Timer W). ticks_left id x ≡ some (count - 1)) after
        (decremented (s.manager.tasks) id count at)
  step_quiet (start ms) id count s s' at e q = started id count ms s s' at e ∙ ap some (omega arith)
  step_quiet (poll other task) id count s s' at e q =
      polled id count other task s s' at e q ∙ ap some (omega arith)

  -- Whatever other tasks do, a sleeping task's count goes down by one with each tick.
  count_down :
      (events : List Event) (id count : ℕ) (s s' : Timer W)
      → ticks_left id s ≡ some count
      → run events s ≡ ok s'
      → All (IsQuiet id) events
      → ticks_left id s' ≡ some (count - ticks events)
  unfolding run ticks
  count_down [] id count s s' at e q = ground arith
  count_down (e0 ∷ events) id count s s' at e (q, qs) =
      let (s1, first, rest) = >>=-eq-ok (step e0 s) (run events) e in
      let now = step_quiet e0 id count s s1 at first q in
      count_down events id (count - ticks (e0 ∷ [])) s1 s' now rest qs
      ∙ ap some (minus_ticks e0 events count)

  new_sleep-ticks :
      (ms id : ℕ) (s s' : Timer W)
      → new_sleep atomic ms s ≡ ok (id, s')
      → ticks_left id s' ≡ some (timer_value ms)
  unfolding new_sleep register_task
  new_sleep-ticks ms id s s' e =
      ground (arith, get-insert_self (s.manager.tasks) s.next_id (timer_value ms, atomic.new_waker))

  polled_now :
      (id count task : ℕ) (s : Timer W)
      → ticks_left id s ≡ some count
      → (s' : Timer W) × (poll_sleep atomic id task s
          ≡ ok ((if count == 0 then ready tt else pending), s'))
  unfolding poll_sleep check_task register_waker
  polled_now id count task s left = elim (Option-cases (get id (s.manager.tasks))) [
    | inl missing ↦ absurd (cc (rw missing at left))
    | inr (v, found) ↦ elim (Bool-cases (count == 0)) [
      | inl zero_left ↦
          (record s { manager = record { tasks = remove id (s.manager.tasks) } }, ground arith)
      | inr more ↦ (
        record s {
          manager = record { tasks = insert id (v.0, atomic.register task v.1) (s.manager.tasks) };
        },
        ground arith,
      )
    ]
  ]

  -- A Sleep, after any events that end without a panic and do not poll it: the next poll
  -- completes it if as many ticks as its milliseconds ask for have come, and is pending
  -- otherwise.
  pub sleep_lem :
      (ms id task : ℕ) (events : List Event) (s s1 s2 : Timer W)
      → new_sleep atomic ms s ≡ ok (id, s1)
      → run events s1 ≡ ok s2
      → All (IsQuiet id) events
      → (s3 : Timer W) × (poll_sleep atomic id task s2
          ≡ ok ((if leb (timer_value ms) (ticks events) then ready tt else pending), s3))
  sleep_lem ms id task events s s1 s2 e es quiet =
      let left =
        count_down events id (timer_value ms) s1 s2 (new_sleep-ticks ms id s s1 e) es quiet in
      let (s3, polled_) = polled_now id (timer_value ms - ticks events) task s2 left in
      (s3, polled_ ∙ ground arith)
