-- ===== src/HeapSetup/Tests.antt =====
-- src/allocator.rs: the theorem on the heap at its first two pages.
use ferr_os.Base.{ℕ, ◌+◌, ◌%◌, ◌≤◌, ◌<◌, ◌≡◌, refl, ◌≢◌, none, [], ◌∷◌, arith, ok}
use ferr_os.Base.{Ends}
use ferr_os.FrameAllocator.Enough.{HasFrames}
use ferr_os.HeapSetup.Filled.{IsUnmapped, init_heap-total}
use ferr_os.Addr.{VirtAddr, new, new_checked, offset, p4_index, p3_index, p2_index, p1_index}
use ferr_os.Addr.Laws.{IsCanonical}
use ferr_os.PageTable.{
  page_size, present, writable, all_flags, contains, PageTableEntry, empty_entry, set_addr, flags,
  is_present, Tables, write_entry, clear, Machine, PageTablesAllocator, MappingMode,
  check_frame_is_free, remapping, link_next_table, set_l1_entry, finish_mapping, create_next_table,
  map_aligned, map_address_impl, map_address, remap_address, map_address_with_offset,
  get_physical_address, align_down, align_down_u64,
}
use ferr_os.PageTable.Mapping.{IsSound}
use ferr_os.FrameAllocator.{free, deref, FrameAllocator, allocate_frame, allocate_page_table}
use ferr_os.FrameAllocator.Tests.{small_map, regions, value}
use ferr_os.FrameAllocator.Supply.{frame_pool, IsReady}
use ferr_os.FrameAllocator.Tables.{advanced, allocate_page_table-IsSound}
use ferr_os.Memory.{virt_mapping_offset}
use ferr_os.HeapSetup.{heap_start, heap_size, map_heap_page, map_heap, init_heap}
use ferr_os.HeapSetup.Rounds.{init_heap-Ends}
use ferr_os.HeapSetup.Mapped.{map_heap_lem, frame_at}

abbrev shifted : FrameAllocator
shifted = record { memory_map = small_map; next = 0; mapping_offset = virt_mapping_offset }

shifted-IsReady : IsReady virt_mapping_offset shifted
unfolding deref
shifted-IsReady = record {
  regions = regions;
  readable = refl;
  few = omega arith;
  disjoint = omega arith;
  paged = omega arith;
  mapped_at = refl;
  offset_small = omega arith;
}

abbrev heap_root : ℕ
heap_root = virt_mapping_offset + 0x10_0000

abbrev bare : Machine FrameAllocator
bare = record { alloc = shifted; tables = λ _ _. 7; invalidated = [] }

started : Machine FrameAllocator
started = (value (allocate_page_table bare) (0, bare)).1

started_lem : allocate_page_table bare ≡ ok (heap_root, started)
unfolding allocate_page_table allocate_frame started new_checked
started_lem = refl

started-IsSound : IsSound (frame_pool virt_mapping_offset) virt_mapping_offset heap_root started
started-IsSound =
    allocate_page_table-IsSound virt_mapping_offset bare started heap_root shifted-IsReady
      started_lem

with_heap : Machine FrameAllocator
with_heap = value (map_heap 3 heap_root heap_start (heap_start + 8192) started) started

heap_mapped : map_heap 3 heap_root heap_start (heap_start + 8192) started ≡ ok with_heap
unfolding with_heap started map_heap map_heap_page map_address_with_offset map_address_impl
    map_aligned create_next_table is_present flags ferr_os.PageTable.addr set_addr
    allocate_page_table allocate_frame new_checked new offset p4_index p3_index p2_index p1_index
    finish_mapping set_l1_entry
heap_mapped = refl

map_heap_test :
    IsSound (frame_pool virt_mapping_offset) virt_mapping_offset heap_root with_heap
    × ((v : VirtAddr)
        → IsCanonical v
        → v % 4096 ≡ 0
        → (heap_start ≤ v → v < heap_start + 8192 → frame_at heap_root with_heap v ≢ none)
          × (v < heap_start → frame_at heap_root with_heap v ≡ frame_at heap_root started v)
          × (heap_start + 8192 ≤ v → frame_at heap_root with_heap v ≡ frame_at heap_root started v))
map_heap_test =
    map_heap_lem 3 heap_root heap_start (heap_start + 8192) started with_heap started-IsSound refl
      (omega arith) heap_mapped

init_heap-Ends_example : Ends (init_heap heap_root started)
init_heap-Ends_example = init_heap-Ends heap_root started

-- A region of 400 free pages.
abbrev large : FrameAllocator
large = record {
  memory_map = record {
    entries = record { ty = free; addr = 0x40_0000; page_count = 400 } ∷ [];
    next_free_entry_idx = 1;
  };
  next = 0;
  mapping_offset = virt_mapping_offset;
}

large-IsReady : IsReady virt_mapping_offset large
unfolding deref
large-IsReady = record {
  regions = record { ty = free; addr = 0x40_0000; page_count = 400 } ∷ [];
  readable = refl;
  few = omega arith;
  disjoint = omega arith;
  paged = omega arith;
  mapped_at = refl;
  offset_small = omega arith;
}

abbrev large_root : ℕ
large_root = virt_mapping_offset + 0x40_0000

abbrev large_bare : Machine FrameAllocator
large_bare = record { alloc = large; tables = λ _ _. 7; invalidated = [] }

large_started : Machine FrameAllocator
large_started = record large_bare {
  alloc = advanced large;
  tables = clear large_bare.tables large_root;
}

large_started_lem : allocate_page_table large_bare ≡ ok (large_root, large_started)
unfolding allocate_page_table allocate_frame large_started new_checked
large_started_lem = refl

large-IsUnmapped : IsUnmapped large_root heap_start (heap_start + heap_size) large_started
unfolding large_started clear is_present
large-IsUnmapped v whole from to = refl

large-HasFrames : HasFrames virt_mapping_offset 304 large_started.alloc
unfolding large_started deref
large-HasFrames = record {
  ready = record {
    regions = record { ty = free; addr = 0x40_0000; page_count = 400 } ∷ [];
    readable = refl;
    few = omega arith;
    disjoint = omega arith;
    paged = omega arith;
    mapped_at = refl;
    offset_small = omega arith;
  };
  left = omega arith;
}

init_heap-total_example :
    (m' : Machine FrameAllocator) × (init_heap large_root large_started ≡ ok m')
    × IsSound (frame_pool virt_mapping_offset) virt_mapping_offset large_root m'
    × ((v : VirtAddr)
        → IsCanonical v
        → v % 4096 ≡ 0
        → (heap_start ≤ v → v < heap_start + heap_size → frame_at large_root m' v ≢ none)
          × (v < heap_start → frame_at large_root m' v ≡ frame_at large_root large_started v)
          × (heap_start + heap_size ≤ v
              → frame_at large_root m' v ≡ frame_at large_root large_started v))
init_heap-total_example =
    init_heap-total large_root large_started
      (allocate_page_table-IsSound virt_mapping_offset large_bare large_started large_root
        large-IsReady large_started_lem)
      large-IsUnmapped large-HasFrames
