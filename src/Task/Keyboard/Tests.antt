-- ===== src/Task/Keyboard/Tests.antt =====
-- The theorems on the queue of scancodes, at a queue with room for two.
use ferr_os.Base.{
  ℕ, ◌+◌, ◌≤◌, ◌<◌, ◌≡◌, refl, true, Option, none, some, List, [], ◌∷◌, ◌++◌, arith, if◌then◌else◌,
  ok,
}
use ferr_os.Task.{ready, pending}
use ferr_os.Task.Queue.Instance.{list_queue, list_queue-IsArrayQueue}
use ferr_os.Task.Waker.Instance.{option_waker, option_waker-IsAtomicWaker}
use ferr_os.Task.Keyboard.{Keyboard, add_scancode, poll_scancode}
use ferr_os.Task.Keyboard.Stream.{
  add_scancode_lem, poll_scancode-pending, poll_scancode-interrupted,
}

abbrev full : Keyboard (Option ℕ) (ℕ × List ℕ)
full = record { scancode_queue = some (2, 30 ∷ 31 ∷ []); waker = some 7; woken = []; dropped = 0 }

abbrev idle : Keyboard (Option ℕ) (ℕ × List ℕ)
idle = record { scancode_queue = some (2, []); waker = none; woken = []; dropped = 0 }

add_scancode_test :
    (2 < 2
      → (q' : ℕ × List ℕ) × ((add_scancode option_waker list_queue 32 full).scancode_queue
          ≡ some q')
        × (q'.1 ≡ (30 ∷ 31 ∷ []) ++ 32 ∷ [])
        × (q'.0 ≡ 2)
        × ((add_scancode option_waker list_queue 32 full).dropped ≡ 0))
    × (2 ≤ 2 → add_scancode option_waker list_queue 32 full ≡ record full { dropped = 0 + 1 })
unfolding list_queue-IsArrayQueue
add_scancode_test =
    add_scancode_lem option_waker list_queue list_queue-IsArrayQueue 32 (2, 30 ∷ 31 ∷ []) full refl

poll_scancode-pending_test :
    (s' : Keyboard (Option ℕ) (ℕ × List ℕ)) × (poll_scancode option_waker list_queue [] [] 7 idle
      ≡ ok (pending, s'))
    × ((add_scancode option_waker list_queue 30 s').woken ≡ idle.woken ++ 7 ∷ [])
unfolding list_queue-IsArrayQueue
poll_scancode-pending_test =
    poll_scancode-pending option_waker list_queue list_queue-IsArrayQueue option_waker-IsAtomicWaker
      7 30 (2, []) idle refl refl (omega arith)

poll_scancode-interrupted_example :
    (s' : Keyboard (Option ℕ) (ℕ × List ℕ)) × (poll_scancode option_waker list_queue
        (if true then 30 ∷ [] else [])
        (if true then [] else 30 ∷ [])
        7
        idle
      ≡ ok (ready (some 30), s'))
unfolding list_queue-IsArrayQueue
poll_scancode-interrupted_example =
    poll_scancode-interrupted option_waker list_queue list_queue-IsArrayQueue true 7 30 (2, []) idle
      refl refl (omega arith)
