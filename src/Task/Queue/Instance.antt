-- ===== src/Task/Queue/Instance.antt =====
-- The interface of the queue can be filled: a capacity and the list of the elements.
use ferr_os.Base.{
  ℕ, refl, true, false, none, some, List, [], ◌∷◌, ◌++◌, ltb, if◌then◌else◌, lt→ltb, le→not_ltb,
  length,
}
use ferr_os.Task.Queue.{ArrayQueue, IsArrayQueue}

abbrev pub list_queue : ArrayQueue (ℕ × List ℕ)
list_queue = record {
  new_queue = λ n. (n, []);
  push = λ x (n, xs). if ltb (length xs) n then some (n, xs ++ x ∷ []) else none;
  pop = λ (n, xs). elim xs [ [] ↦ none | x ∷ rest ↦ some (x, (n, rest)) ];
  is_empty = λ (n, xs). elim xs [ [] ↦ true | _ ∷ _ ↦ false ];
}

unfoldable pub list_queue-IsArrayQueue : IsArrayQueue list_queue
list_queue-IsArrayQueue = record {
  capacity = λ q. q.0;
  elements = λ q. q.1;
  new-elements = λ n. refl;
  new-capacity = λ n. refl;
  push-room = λ x q h. ((q.0, q.1 ++ x ∷ []), rw (lt→ltb (length q.1) q.0 h) refl, refl, refl);
  push-full = λ x q h. rw (le→not_ltb (length q.1) q.0 h) refl;
  pop-empty = λ q e. rw e refl;
  is_empty-empty = λ q e. rw e refl;
  is_empty-first = λ x xs q e. rw e refl;
  pop-first = λ x xs q e. ((q.0, xs), rw e refl, refl, refl);
}
