-- ===== src/Task/Waker.antt =====
-- The interface of `futures_util::task::AtomicWaker`, and what its documentation says of it. A
-- `Waker` is told by the identifier of the task that it wakes.
pub mod Instance
use ferr_os.Base.{ℕ, Option, none, some, List, [], ◌∷◌, ◌≡◌}

pub record AtomicWaker (W : Type 0) : Type 0 where
  pub new_waker : W
  pub register : ℕ → W → W
  pub take_waker : W → Option ℕ × W

-- A registered waker replaces the one before, and is there until it is taken.
pub record IsAtomicWaker {W : Type 0} (atomic : AtomicWaker W) : Type 0 where
  pub take-new : atomic.take_waker atomic.new_waker ≡ (none, atomic.new_waker)
  pub take-register :
      (task : ℕ) (w : W)
      → atomic.take_waker (atomic.register task w) ≡ (some task, atomic.new_waker)

-- `wake`: the waker that is there is taken, and its task woken.
abbrev pub wake : {W : Type 0} → AtomicWaker W → W → List ℕ × W
wake atomic w =
    let (taken, rest) = atomic.take_waker w in
    (elim taken [ none ↦ [] | some task ↦ task ∷ [] ], rest)
