-- ===== src/Task/Timer/Tests.antt =====
-- The theorems on the timer, with a waker that is an option.
use ferr_os.Base.{
  ℕ, ◌≡◌, refl, true, false, ◌||◌, Option, none, some, List, [], ◌∷◌, ◌++◌, arith, leb,
  if◌then◌else◌, Outcome, ok,
}
use ferr_os.Base.BTreeMap.{contains_key, insert}
use ferr_os.Task.{ready, pending}
use ferr_os.Task.Waker.Instance.{option_waker, option_waker-IsAtomicWaker}
use ferr_os.Task.Timer.{
  Timer, raise_timer, poll_next, poll_sleep, new_sleep, register_task, timer_value,
}
use ferr_os.Task.Timer.Flag.{raise_timer-silent, poll_next_lem}
use ferr_os.Task.Timer.Ticks.{Event, tick, start, poll, ticks, run, step, sleep_lem}

abbrev waiting : Timer (Option ℕ)
waiting = record {
  timer_flag = some false;
  waker = none;
  manager = record { tasks = [] };
  next_id = 0;
  woken = [];
  errors = 0;
}

raise_timer_test : (raise_timer option_waker (record waiting { timer_flag = some true })).errors ≡ 0
raise_timer_test = raise_timer-silent option_waker (record waiting { timer_flag = some true })

poll_next_example :
    (s' : Timer (Option ℕ)) × (poll_next option_waker false false 7 waiting
      ≡ ok ((if false || false || false then ready tt else pending), s'))
    × (s'.timer_flag ≡ some false)
    × ((false || false || false) ≡ false
        → (raise_timer option_waker s').woken ≡ waiting.woken ++ 7 ∷ [])
poll_next_example =
    poll_next_lem option_waker option_waker-IsAtomicWaker false false false 7 waiting refl

abbrev value : Outcome (Timer (Option ℕ)) → Timer (Option ℕ)
value (ok s) = s
value _ = waiting

-- 8 milliseconds are two ticks; another task asks for 40 in between.
abbrev asleep : Timer (Option ℕ)
asleep = record waiting { manager = record { tasks = (0, (2, none)) ∷ [] }; next_id = 1 }

abbrev passed : List Event
passed = tick ∷ start 40 ∷ poll 1 9 ∷ tick ∷ []

later : Timer (Option ℕ)
later = value (run option_waker passed asleep)

sleep_example :
    (s3 : Timer (Option ℕ)) × (poll_sleep option_waker 0 7 later
      ≡ ok ((if leb (timer_value 8) (ticks passed) then ready tt else pending), s3))
unfolding new_sleep register_task later run step poll_sleep contains_key insert
sleep_example =
    sleep_lem option_waker 8 0 7 passed waiting asleep later refl refl
      (tt, (tt, (omega arith, (tt, tt))))
