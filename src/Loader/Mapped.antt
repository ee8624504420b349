-- ===== src/Loader/Mapped.antt =====
-- loader/src/main.rs: which pages have frames after the loader's loops.
use ferr_os.FrameAllocator.Enough.{HasFrames}
use ferr_os.FrameAllocator.Runs.{map_window-total}
use ferr_os.Base.{
  none, ℕ, ◌+◌, ◌-◌, ◌*◌, ◌/◌, ◌%◌, ◌^◌, ◌<◌, ◌≡◌, refl, ap, ◌∙◌, inl, arith, u64, ok,
}
use ferr_os.Base.{>>=-eq-ok}
use ferr_os.Addr.{VirtAddr, new, new_checked}
use ferr_os.Addr.Laws.{IsCanonical, new-IsCanonical, new_checked_lem}
use ferr_os.PageTable.{Machine}
use ferr_os.PageTable.Mapping.{IsSound}
use ferr_os.PageTable.Translate.{page_frame}
use ferr_os.PageTable.Window.{window_frame, map_window_lem}
use ferr_os.FrameAllocator.{FrameAllocator, frame_allocator}
use ferr_os.FrameAllocator.Supply.{frame_pool}
use ferr_os.FrameAllocator.Tables.{frame_allocator-IsAllocator}
use ferr_os.Memory.{virt_mapping_offset}
use ferr_os.Loader.Setup.{
  FrameBuffer, memory_page, map_memory, frame_buffer_page, map_framebuffer, stack_page,
  create_stack,
}

abbrev Sound : ℕ → Machine FrameAllocator → Type 0
Sound root m = IsSound (frame_pool 0) 0 root m

-- The machine after the loop is sound, and its pages are those of the window and the former ones.
abbrev pub HasWindow : ℕ → ℕ → ℕ → ℕ → Machine FrameAllocator → Machine FrameAllocator → Type 0
HasWindow root first frames rounds m m' =
    IsSound (frame_pool 0) 0 root m'
    × ((v : VirtAddr)
        → IsCanonical v
        → v % 4096 ≡ 0
        → page_frame m'.tables 0 root v
          ≡ window_frame first frames 0 rounds v (page_frame m.tables 0 root v))

-- In a sound tree of tables, mapping all memory up to a last frame below 2^46, where it
-- succeeds, leads each page of the window at the offset to its frame below the last one, leaves
-- the other pages as they were, and keeps the tree sound.
pub map_memory_lem :
    (root last_frame_addr : ℕ) (m m' : Machine FrameAllocator)
    → last_frame_addr < 2 ^ 46
    → IsSound (frame_pool 0) 0 root m
    → map_memory root last_frame_addr m ≡ ok m'
    → HasWindow root virt_mapping_offset 0 (last_frame_addr / 4096) m m'
unfolding map_memory
map_memory_lem root last m m' small s e =
    map_window_lem (frame_pool 0) 0 root frame_allocator (frame_allocator-IsAllocator 0)
      virt_mapping_offset 0 refl (memory_page root) (λ i. i * 4096) (last / 4096) 0 m m'
      (λ k lo hi. (ap ok (page k (omega arith)), omega arith))
      (λ k hi. (omega arith, inl (omega arith))) (omega arith) s e
  where
    page :
        (k : ℕ)
        → k < last / 4096
        → new (u64 (k * 4096 + virt_mapping_offset)) ≡ virt_mapping_offset + k * 4096
    page k hi = ground (
      arith,
      (new-IsCanonical (u64 (k * 4096 + virt_mapping_offset))).2 (omega arith, inl (omega arith)),
    )

checked : (a : ℕ) → a < 2 ^ 47 → new_checked a ≡ ok a
checked a h =
    ground (arith, new_checked_lem a (omega arith), (new-IsCanonical a).2 (omega arith, inl h))

-- The whole pages of a page-aligned frame buffer are mapped at the offset, and no other page
-- changes: where the size is no multiple of the page size, the last page is not mapped.
pub map_framebuffer_lem :
    (root : ℕ) (fb : FrameBuffer) (m m' : Machine FrameAllocator)
    → fb.addr + fb.size < 2 ^ 46
    → fb.addr % 4096 ≡ 0
    → IsSound (frame_pool 0) 0 root m
    → map_framebuffer root fb m ≡ ok m'
    → HasWindow root (fb.addr + virt_mapping_offset) fb.addr (fb.size / 4096) m m'
unfolding map_framebuffer
map_framebuffer_lem root fb m m' small aligned s e =
    map_window_lem (frame_pool 0) 0 root frame_allocator (frame_allocator-IsAllocator 0)
      (fb.addr + virt_mapping_offset) fb.addr (omega arith) (frame_buffer_page root fb)
      (λ i. u64 (fb.addr + i * 4096)) (fb.size / 4096) 0 m m'
      (λ k lo hi. (page k (omega arith), omega arith)) (λ k hi. (omega arith, inl (omega arith)))
      (omega arith) s e
  where
    page :
        (k : ℕ)
        → k < fb.size / 4096
        → frame_buffer_page root fb k ≡ ok (fb.addr + virt_mapping_offset + k * 4096)
    page k hi = checked _ (omega arith) ∙ ap ok (omega arith)

-- In a sound tree of tables, mapping a stack of some pages below 2^47, at a page-aligned
-- address, where it succeeds, leads each of its pages to itself, and the stack's top is the
-- start of its last page.
pub create_stack_lem :
    (root stack_addr stack_depth top : ℕ) (m m' : Machine FrameAllocator)
    → stack_addr + stack_depth * 4096 < 2 ^ 47
    → 0 < stack_depth
    → stack_addr % 4096 ≡ 0
    → IsSound (frame_pool 0) 0 root m
    → create_stack root stack_addr stack_depth m ≡ ok (top, m')
    → HasWindow root stack_addr stack_addr stack_depth m m'
      × (top + 4096 ≡ stack_addr + stack_depth * 4096)
unfolding create_stack
create_stack_lem root stack_addr stack_depth top m m' small some_pages aligned s e =
    let (m1, mapped, ends) = >>=-eq-ok _ _ e in
    let (at_top, same) : (u64 (stack_addr + u64 (stack_depth + 2 ^ 64 - 1) * 4096) ≡ top)
        × (m1 ≡ m') =
      (cc ends, cc ends) in
    (
      map_window_lem (frame_pool 0) 0 root frame_allocator (frame_allocator-IsAllocator 0)
          stack_addr stack_addr aligned (stack_page root stack_addr)
          (λ i. u64 (stack_addr + i * 4096)) stack_depth 0 m m'
          (λ k lo hi. (page k (omega arith), omega arith))
          (λ k hi. (omega arith, inl (omega arith))) (omega arith) s (mapped ∙ ap ok same),
      omega (arith, at_top),
    )
  where
    page : (k : ℕ) → k < stack_depth → stack_page root stack_addr k ≡ ok (stack_addr + k * 4096)
    page k hi = checked _ (omega arith) ∙ ap ok (omega arith)

-- In a sound tree of tables, where a stack's pages, at a page-aligned address and below 2^47,
-- have no frame, and three frames for each of them are free, creating the stack succeeds. It
-- leads each of the pages to itself, leaves the others as they were, and gives the start of the
-- last page as the stack's top.
pub create_stack-total :
    (root stack_addr stack_depth : ℕ) (m : Machine FrameAllocator)
    → stack_addr + stack_depth * 4096 < 2 ^ 47
    → 0 < stack_depth
    → stack_addr % 4096 ≡ 0
    → IsSound (frame_pool 0) 0 root m
    → ((k : ℕ) → k < stack_depth → page_frame m.tables 0 root (stack_addr + k * 4096) ≡ none)
    → HasFrames 0 (3 * stack_depth) m.alloc
    → (m' : Machine FrameAllocator) × (create_stack root stack_addr stack_depth m
        ≡ ok (stack_addr + (stack_depth - 1) * 4096, m'))
      × HasWindow root stack_addr stack_addr stack_depth m m'
unfolding create_stack
create_stack-total root stack_addr stack_depth m small some_pages aligned s free enough =
    let (m', mapped) =
      map_window-total 0 root stack_addr stack_addr aligned aligned (stack_page root stack_addr)
        (λ i. u64 (stack_addr + i * 4096)) stack_depth 0 m
        (λ k lo hi. (page k (omega arith), omega arith)) (λ k hi. (omega arith, inl (omega arith)))
        (omega arith) s (λ k lo hi. free k (omega arith)) enough in
    let top : u64 (stack_addr + u64 (stack_depth + 2 ^ 64 - 1) * 4096)
        ≡ stack_addr + (stack_depth - 1) * 4096 =
      omega arith in
    let e : create_stack root stack_addr stack_depth m
        ≡ ok (stack_addr + (stack_depth - 1) * 4096, m') =
      rw (mapped, top) refl in
    (
      m',
      e,
      (create_stack_lem root stack_addr stack_depth (stack_addr + (stack_depth - 1) * 4096) m m'
          small some_pages aligned s e).0,
    )
  where
    page : (k : ℕ) → k < stack_depth → stack_page root stack_addr k ≡ ok (stack_addr + k * 4096)
    page k hi = checked _ (omega arith) ∙ ap ok (omega arith)
