-- ===== src/Task/Keyboard/Stream.antt =====
-- The queue of scancodes: first in, first out, and the newest dropped where it is full.
use ferr_os.Base.{
  ℕ, ◌+◌, ◌≤◌, ◌<◌, ◌≡◌, ap, ◌∙◌, Bool, true, false, some, [], ◌∷◌, ◌++◌, arith, if◌then◌else◌,
  length, ok,
}
use ferr_os.Task.{ready, pending}
use ferr_os.Task.Waker.{wake, AtomicWaker, IsAtomicWaker}
use ferr_os.Task.Queue.{ArrayQueue, IsArrayQueue}
use ferr_os.Task.Keyboard.{Keyboard, wake_keyboard, add_scancode, pop_again, poll_scancode}

module _ {W Q : Type 0} (atomic : AtomicWaker W) (array_queue : ArrayQueue Q)
    (law : IsArrayQueue array_queue) where
  -- The handler appends a scancode and wakes the waiting task where there is room; it drops the
  -- scancode, counting a warning and waking nobody, where there is none.
  pub add_scancode_lem :
      (scancode : ℕ) (q : Q) (s : Keyboard W Q)
      → s.scancode_queue ≡ some q
      → (length (law.elements q) < law.capacity q
          → (q' : Q) × ((add_scancode atomic array_queue scancode s).scancode_queue ≡ some q')
            × (law.elements q' ≡ law.elements q ++ scancode ∷ [])
            × (law.capacity q' ≡ law.capacity q)
            × ((add_scancode atomic array_queue scancode s).dropped ≡ s.dropped))
        × (law.capacity q ≤ length (law.elements q)
            → add_scancode atomic array_queue scancode s ≡ record s { dropped = s.dropped + 1 })
  unfolding add_scancode wake_keyboard
  add_scancode_lem scancode q s e = (
    λ room.
        let (q', pushed, elements, capacity) = law.push-room scancode q room in
        (q', ground (arith, pushed, e), elements, capacity, ground (arith, pushed, e)),
    λ full. let p = law.push-full scancode q full in ground (arith, p, e),
  )

  -- Polling an empty queue of scancodes of some capacity, with no interrupt in between, is
  -- pending, and the next scancode wakes the polling task.
  pub poll_scancode-pending :
      (IsAtomicWaker atomic)
      → (task scancode : ℕ) (q : Q) (s : Keyboard W Q) → s.scancode_queue ≡ some q
      → law.elements q ≡ []
      → 0 < law.capacity q
      → (s' : Keyboard W Q) × (poll_scancode atomic array_queue [] [] task s ≡ ok (pending, s'))
        × ((add_scancode atomic array_queue scancode s').woken ≡ s.woken ++ task ∷ [])
  unfolding poll_scancode pop_again add_scancode wake_keyboard
  poll_scancode-pending waking task scancode q s e empty room =
      let none_ = law.pop-empty q empty in
      let (q', pushed, rest, _) = law.push-room scancode q (omega (arith, ap length empty)) in
      (
        record s { waker = atomic.register task s.waker },
        ground (arith, none_, e),
        ground (arith, e, pushed, ap (λ p. p.0) (waking.take-register task s.waker)),
      )

  -- An interrupt during a poll of an empty queue of scancodes of some capacity, before or after
  -- the waker is registered, is not lost: the poll gives its scancode.
  pub poll_scancode-interrupted :
      (early : Bool) (task scancode : ℕ) (q : Q) (s : Keyboard W Q)
      → s.scancode_queue ≡ some q
      → law.elements q ≡ []
      → 0 < law.capacity q
      → (s' : Keyboard W Q) × (poll_scancode atomic array_queue
            (if early then scancode ∷ [] else [])
            (if early then [] else scancode ∷ [])
            task
            s
          ≡ ok (ready (some scancode), s'))
  unfolding poll_scancode pop_again add_scancode wake_keyboard
  poll_scancode-interrupted true task scancode q s e empty room =
      let none_ = law.pop-empty q empty in
      let (q', pushed, longer, _) = law.push-room scancode q (omega (arith, ap length empty)) in
      let (q'', popped, rest, _) =
        law.pop-first scancode [] q' (longer ∙ ap (λ xs. xs ++ scancode ∷ []) empty) in
      (
        record s {
          scancode_queue = some q'';
          waker = (atomic.take_waker (atomic.register task (wake atomic s.waker).1)).1;
          woken = s.woken ++ (wake atomic s.waker).0;
        },
        ground (arith, none_, e, pushed, popped),
      )
  poll_scancode-interrupted false task scancode q s e empty room =
      let none_ = law.pop-empty q empty in
      let (q', pushed, longer, _) = law.push-room scancode q (omega (arith, ap length empty)) in
      let (q'', popped, rest, _) =
        law.pop-first scancode [] q' (longer ∙ ap (λ xs. xs ++ scancode ∷ []) empty) in
      (
        record s {
          scancode_queue = some q'';
          waker = (atomic.take_waker (wake atomic (atomic.register task s.waker)).1).1;
          woken = s.woken ++ (wake atomic (atomic.register task s.waker)).0;
        },
        ground (arith, none_, e, pushed, popped),
      )
