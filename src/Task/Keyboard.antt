-- ===== src/Task/Keyboard.antt =====
-- src/task/keyboard.rs: the queue of scancodes, filled by the keyboard's interrupt. The scancode
-- decoder of `pc_keyboard` is a parameter.
pub mod Stream
mod Tests
use ferr_os.Base.{ℕ, ◌+◌, Option, none, some, List, [], ◌∷◌, ◌++◌, Outcome, ok, panic}
use ferr_os.Task.{Poll, ready, pending}
use ferr_os.Task.Waker.{AtomicWaker, wake}
use ferr_os.Task.Queue.{ArrayQueue}

-- The statics of the file; `dropped` is the number of warnings. The queue is not there before it is
-- initialised.
pub record Keyboard (W Q : Type 0) : Type 0 where
  pub scancode_queue : Option Q
  pub waker : W
  pub woken : List ℕ
  pub dropped : ℕ

module _ {W Q : Type 0} (atomic : AtomicWaker W) (array_queue : ArrayQueue Q) where
  unfoldable pub wake_keyboard : Keyboard W Q → Keyboard W Q
  wake_keyboard s =
      let (tasks, waker) = wake atomic s.waker in
      record s { waker = waker; woken = s.woken ++ tasks }

  unfoldable pub add_scancode : ℕ → Keyboard W Q → Keyboard W Q
  unfolding wake_keyboard
  add_scancode scancode s = elim s.scancode_queue [
    | none ↦ record s { dropped = s.dropped + 1 }
    | some queue ↦ elim (array_queue.push scancode queue) [
      | none ↦ record s { dropped = s.dropped + 1 }
      | some longer ↦ wake_keyboard (record s { scancode_queue = some longer })
    ]
  ]

  unfoldable pub new_scancode_stream : Keyboard W Q → Outcome (Keyboard W Q)
  new_scancode_stream s = elim s.scancode_queue [
    | none ↦ ok (record s { scancode_queue = some (array_queue.new_queue 100) })
    | some _ ↦ panic
  ]

  -- The interrupts that come at a point of the code.
  abbrev pub interrupts : List ℕ → Keyboard W Q → Keyboard W Q
  interrupts [] s = s
  interrupts (scancode ∷ scancodes) s = interrupts scancodes (add_scancode scancode s)

  -- The second look at the queue, after the waker is registered.
  unfoldable pub pop_again : Keyboard W Q → Outcome (Poll (Option ℕ) × Keyboard W Q)
  pop_again s = elim s.scancode_queue [
    | none ↦ panic
    | some queue ↦ elim (array_queue.pop queue) [
      | none ↦ ok (pending, s)
      | some (scancode, rest) ↦ ok (
        ready (some scancode),
        record s { scancode_queue = some rest; waker = (atomic.take_waker s.waker).1 },
      )
    ]
  ]

  -- `early` and `late` are the interrupts before the waker is registered, and between that and
  -- the second look.
  unfoldable pub poll_scancode :
      List ℕ → List ℕ → ℕ → Keyboard W Q → Outcome (Poll (Option ℕ) × Keyboard W Q)
  unfolding add_scancode pop_again
  poll_scancode early late task s = elim s.scancode_queue [
    | none ↦ panic
    | some queue ↦ elim (array_queue.pop queue) [
      | some (scancode, rest) ↦ ok (ready (some scancode), record s { scancode_queue = some rest })
      | none ↦
          let s2 = interrupts early s in
          pop_again (interrupts late (record s2 { waker = atomic.register task s2.waker }))
    ]
  ]
