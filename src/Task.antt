-- ===== src/Task.antt =====
-- src/task/mod.rs: the identifiers of tasks, and what polling a future gives.
pub mod Waker
pub mod Timer
pub mod Queue
pub mod Executor
pub mod Keyboard
use ferr_os.Base.{ℕ, ◌+◌, u64}

pub data Poll {ℓ} (A : Type ℓ) : Type ℓ where
  ready : A → Poll A
  pending : Poll A

-- `NEXT_ID.fetch_add(1)`: the identifier, and the counter after it.
abbrev pub fetch_add : ℕ → ℕ × ℕ
fetch_add next_id = (next_id, u64 (next_id + 1))
