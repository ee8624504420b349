-- ===== src/Task/Queue.antt =====
-- The interface of `crossbeam_queue::ArrayQueue`, a bounded queue, and what its documentation
-- says of it.
pub mod Instance
use ferr_os.Base.{
  ℕ, Bool, true, false, ◌<◌, ◌≤◌, Option, none, some, List, [], ◌∷◌, ◌++◌, ◌≡◌, length,
}

-- `push` gives no queue where the queue is full.
pub record ArrayQueue (Q : Type 0) : Type 0 where
  pub new_queue : ℕ → Q
  pub push : ℕ → Q → Option Q
  pub pop : Q → Option (ℕ × Q)
  pub is_empty : Q → Bool

-- A queue has a capacity and elements; the oldest one leaves first.
pub record IsArrayQueue {Q : Type 0} (array_queue : ArrayQueue Q) : Type 0 where
  pub capacity : Q → ℕ
  pub elements : Q → List ℕ
  pub new-elements : (n : ℕ) → elements (array_queue.new_queue n) ≡ []
  pub new-capacity : (n : ℕ) → capacity (array_queue.new_queue n) ≡ n
  pub push-room :
      (x : ℕ) (q : Q)
      → length (elements q) < capacity q
      → (q' : Q) × (array_queue.push x q ≡ some q')
        × (elements q' ≡ elements q ++ x ∷ [])
        × (capacity q' ≡ capacity q)
  pub push-full : (x : ℕ) (q : Q) → capacity q ≤ length (elements q) → array_queue.push x q ≡ none
  pub pop-empty : (q : Q) → elements q ≡ [] → array_queue.pop q ≡ none
  pub is_empty-empty : (q : Q) → elements q ≡ [] → array_queue.is_empty q ≡ true
  pub is_empty-first :
      (x : ℕ) (xs : List ℕ) (q : Q) → elements q ≡ x ∷ xs → array_queue.is_empty q ≡ false
  pub pop-first :
      (x : ℕ) (xs : List ℕ) (q : Q)
      → elements q ≡ x ∷ xs
      → (q' : Q) × (array_queue.pop q ≡ some (x, q'))
        × (elements q' ≡ xs)
        × (capacity q' ≡ capacity q)
