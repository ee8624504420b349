-- ===== src/HeapSetup.antt =====
-- src/allocator.rs: mapping the pages of the kernel's heap.
pub mod Mapped
pub mod Rounds
pub mod Filled
mod Tests
use ferr_os.Base.{
  ℕ, zero, suc, ◌*◌, ltb, if◌then◌else◌, Outcome, ok, hang, ◌>>=◌, expect, expect_some,
}
use ferr_os.Addr.{VirtAddr, new, offset}
use ferr_os.PageTable.{Machine, map_address_with_offset}
use ferr_os.FrameAllocator.{FrameAllocator, allocate_frame, frame_allocator}
use ferr_os.Memory.{virt_mapping_offset}

abbrev pub heap_start : ℕ
heap_start = 0x7777_7777_0000

abbrev pub heap_size : ℕ
heap_size = 300 * 1024

-- A frame, and the mapping of one page to it.
unfoldable pub map_heap_page :
    ℕ → VirtAddr → Machine FrameAllocator → Outcome (Machine FrameAllocator)
map_heap_page page_table heap m = do
  (allocated, alloc) ← allocate_frame m.alloc
  frame ← expect_some allocated
  expect (
      map_address_with_offset frame_allocator page_table heap frame virt_mapping_offset
        (record m { alloc = alloc }))

-- The loop; `hang` is more rounds than the fuel allows.
unfoldable pub map_heap :
    ℕ → ℕ → VirtAddr → VirtAddr → Machine FrameAllocator → Outcome (Machine FrameAllocator)
unfolding map_heap_page
map_heap zero page_table heap heap_end m = hang
map_heap (suc fuel) page_table heap heap_end m =
    if ltb heap heap_end
    then (do
      mapped ← map_heap_page page_table heap m
      next ← expect (offset heap 4096)
      map_heap fuel page_table next heap_end mapped)
    else ok m

-- The heap has 75 pages.
unfoldable pub init_heap : ℕ → Machine FrameAllocator → Outcome (Machine FrameAllocator)
unfolding map_heap
init_heap page_table m = do
  heap_end ← expect (offset (new heap_start) heap_size)
  map_heap 76 page_table (new heap_start) heap_end m
