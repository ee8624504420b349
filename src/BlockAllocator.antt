-- ===== src/BlockAllocator.antt =====
-- shared_lib/src/allocator/fixed_size_block.rs: free lists of blocks of fixed sizes, in front of a
-- `linked_list_allocator::Heap`, which is a parameter.
pub mod Sizes
pub mod Blocks
mod Tests
use ferr_os.Base.{
  ℕ, ◌+◌, max, Option, none, some, List, [], ◌∷◌, leb, ◌==◌, if◌then◌else◌, get_or, set, replicate,
  Outcome, ok, panic,
}

abbrev pub block_sizes : List ℕ
block_sizes = 8 ∷ 16 ∷ 32 ∷ 64 ∷ 128 ∷ 256 ∷ 512 ∷ 1024 ∷ 2048 ∷ []

-- A node of a free list takes 8 bytes, aligned to 8.
abbrev pub list_node_size : ℕ
list_node_size = 8

pub record Layout : Type 0 where
  pub size : ℕ
  pub align : ℕ

-- `position(|&s| s >= required)`, from an index on.
unfoldable pub position_from : ℕ → List ℕ → ℕ → Option ℕ
position_from i [] required = none
position_from i (s ∷ sizes) required =
    let rest = position_from (i + 1) sizes required in if leb required s then some i else rest

unfoldable pub list_index : Layout → Option ℕ
unfolding position_from
list_index layout = position_from 0 block_sizes (max layout.size layout.align)

-- The operations of the fallback allocator: `None` is an error.
pub record Heap (H : Type 0) : Type 0 where
  pub empty_heap : H
  pub init_heap : ℕ → ℕ → H → H
  pub allocate_first_fit : Layout → H → Option (ℕ × H)
  pub deallocate : ℕ → Layout → H → H

-- A free list is the list of its blocks' addresses, the head first: a block keeps its `next` in its
-- own memory, which nobody else uses while it is free.
pub record FixedSizeBlockAllocator (H : Type 0) : Type 0 where
  pub list_heads : List (List ℕ)
  pub fallback_allocator : H

module _ {H : Type 0} (heap : Heap H) where
  abbrev pub new_block_allocator : FixedSizeBlockAllocator H
  new_block_allocator = record { list_heads = replicate 9 []; fallback_allocator = heap.empty_heap }

  abbrev pub init : ℕ → ℕ → FixedSizeBlockAllocator H → FixedSizeBlockAllocator H
  init heap_start heap_size self = record self {
    fallback_allocator = heap.init_heap heap_start heap_size self.fallback_allocator;
  }

  -- The null pointer is 0.
  unfoldable pub fallback_alloc : Layout → FixedSizeBlockAllocator H → ℕ × FixedSizeBlockAllocator H
  fallback_alloc layout self = elim (heap.allocate_first_fit layout self.fallback_allocator) [
    | none ↦ (0, self)
    | some (ptr, rest) ↦ (ptr, record self { fallback_allocator = rest })
  ]

  -- `Layout::from_size_align` of a block.
  unfoldable pub alloc_block : ℕ → FixedSizeBlockAllocator H → ℕ × FixedSizeBlockAllocator H
  unfolding fallback_alloc
  alloc_block index self = elim (get_or self.list_heads index []) [
    | [] ↦
        let block_size = get_or block_sizes index 0 in
        fallback_alloc (record { size = block_size; align = block_size }) self
    | node ∷ next ↦ (node, record self { list_heads = set self.list_heads index next })
  ]

  unfoldable pub alloc : Layout → FixedSizeBlockAllocator H → ℕ × FixedSizeBlockAllocator H
  alloc layout self = elim (list_index layout) [
    | some index ↦ alloc_block index self
    | none ↦ fallback_alloc layout self
  ]

  -- The assertions on the node's size, and `NonNull::new`.
  unfoldable pub dealloc :
      ℕ → Layout → FixedSizeBlockAllocator H → Outcome (FixedSizeBlockAllocator H)
  dealloc ptr layout self = elim (list_index layout) [
    | some index ↦
        if leb list_node_size (get_or block_sizes index 0)
        then ok (record self {
          list_heads = set self.list_heads index (ptr ∷ get_or self.list_heads index []);
        })
        else panic
    | none ↦
        if ptr == 0
        then panic
        else ok (record self {
          fallback_allocator = heap.deallocate ptr layout self.fallback_allocator;
        })
  ]
