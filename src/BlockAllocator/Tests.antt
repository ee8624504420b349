-- ===== src/BlockAllocator/Tests.antt =====
-- The block allocator in front of a heap that only moves up.
use ferr_os.Base.{
  ℕ, zero, suc, ◌+◌, ◌*◌, ◌/◌, ◌%◌, ◌≤◌, ◌<◌, max, ◌≡◌, refl, none, some, [], ◌∷◌, arith, get_or,
  replicate,
}
use ferr_os.BlockAllocator.{
  block_sizes, Layout, list_index, position_from, Heap, FixedSizeBlockAllocator, alloc, dealloc,
}
use ferr_os.BlockAllocator.Sizes.{list_index_lem}
use ferr_os.BlockAllocator.Blocks.{IsAligned, IsAligning, dealloc-alloc, alloc-IsAligned}

-- The heap is the next free address.
abbrev bump_heap : Heap ℕ
bump_heap = record {
  empty_heap = 0;
  init_heap = λ start size h. start;
  allocate_first_fit = λ layout h.
      let start = (h / layout.align + 1) * layout.align in some (start, start + layout.size);
  deallocate = λ ptr layout h. h;
}

bump_heap-IsAligning : IsAligning bump_heap
bump_heap-IsAligning layout h h' ptr e = multiple (h / layout.align + 1) layout.align ptr (cc)
  where
    multiple : (q d p : ℕ) → q * d ≡ p → p % d ≡ 0
    multiple q d p e = grind arith

abbrev fresh : FixedSizeBlockAllocator ℕ
fresh = record { list_heads = replicate 9 []; fallback_allocator = 100 }

abbrev small : Layout
small = record { size = 20; align = 4 }

freed : FixedSizeBlockAllocator ℕ
freed = record {
  list_heads = [] ∷ [] ∷ (4096 ∷ []) ∷ [] ∷ [] ∷ [] ∷ [] ∷ [] ∷ [] ∷ [];
  fallback_allocator = 100;
}

dealloc-alloc_example : alloc bump_heap (record { size = 32; align = 8 }) freed ≡ (4096, fresh)
unfolding dealloc list_index position_from freed
dealloc-alloc_example =
    dealloc-alloc bump_heap 4096 2 small (record { size = 32; align = 8 }) fresh freed refl refl
      (omega arith) refl

fresh-IsAligned : IsAligned bump_heap fresh
fresh-IsAligned zero = tt
fresh-IsAligned (suc zero) = tt
fresh-IsAligned (suc (suc zero)) = tt
fresh-IsAligned (suc (suc (suc zero))) = tt
fresh-IsAligned (suc (suc (suc (suc zero)))) = tt
fresh-IsAligned (suc (suc (suc (suc (suc zero))))) = tt
fresh-IsAligned (suc (suc (suc (suc (suc (suc zero)))))) = tt
fresh-IsAligned (suc (suc (suc (suc (suc (suc (suc zero))))))) = tt
fresh-IsAligned (suc (suc (suc (suc (suc (suc (suc (suc zero)))))))) = tt
fresh-IsAligned (suc (suc (suc (suc (suc (suc (suc (suc (suc i))))))))) = tt

alloc-IsAligned_example :
    ((alloc bump_heap small fresh).0 % 32 ≡ 0) × IsAligned bump_heap (alloc bump_heap small fresh).1
unfolding list_index position_from
alloc-IsAligned_example =
    alloc-IsAligned bump_heap bump_heap-IsAligning small 2 fresh refl fresh-IsAligned refl

list_index_test :
    ((i : ℕ)
      → list_index small ≡ some i
      → (i < 9)
        × (max 20 4 ≤ get_or block_sizes i 0)
        × ((j : ℕ) → j < i → get_or block_sizes j 0 < max 20 4))
    × (list_index small ≡ none → 2048 < max 20 4)
    × (2048 < max 20 4 → list_index small ≡ none)
list_index_test = list_index_lem small
