-- ===== src/Task/Waker/Instance.antt =====
-- The interface of the waker can be filled: a waker is an option.
use ferr_os.Base.{ℕ, refl, Option, none, some}
use ferr_os.Task.Waker.{AtomicWaker, IsAtomicWaker}

abbrev pub option_waker : AtomicWaker (Option ℕ)
option_waker = record {
  new_waker = none;
  register = λ task _. some task;
  take_waker = λ w. (w, none);
}

pub option_waker-IsAtomicWaker : IsAtomicWaker option_waker
option_waker-IsAtomicWaker = record { take-new = refl; take-register = λ task w. refl }
