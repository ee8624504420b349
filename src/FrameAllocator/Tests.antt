-- ===== src/FrameAllocator/Tests.antt =====
-- The allocator and the page tables together: the theorems on a machine with two free regions.
use ferr_os.Base.{
  ℕ, ◌+◌, ◌%◌, ◌≤◌, ◌<◌, ◌≡◌, refl, none, some, List, [], ◌∷◌, arith, ◌==◌, if◌then◌else◌, Outcome,
  ok,
}
use ferr_os.Addr.{VirtAddr, new_checked}
use ferr_os.Addr.Laws.{IsCanonical}
use ferr_os.PageTable.{
  Machine, check_frame_is_free, map_address_impl, map_aligned, create_next_table, is_present,
  finish_mapping, set_l1_entry,
}
use ferr_os.PageTable.Mapping.{IsSound, IsAllocator}
use ferr_os.PageTable.Translate.{page_frame}
use ferr_os.PageTable.Pages.{map_address_impl_lem}
use ferr_os.FrameAllocator.{
  free, reserved, MemoryRegion, MemoryMap, FrameAllocator, deref, allocate_frame,
  allocate_page_table, frame_allocator,
}
use ferr_os.FrameAllocator.Frames.{Origin, free_pages}
use ferr_os.FrameAllocator.Supply.{
  frame_pool, IsReady, allocate_frame_lem, allocate_frame-exhausted,
}
use ferr_os.FrameAllocator.Enough.{HasFrames, map_address_impl-total}
use ferr_os.FrameAllocator.Tables.{frame_allocator-IsAllocator, allocate_page_table-IsSound}

abbrev pub regions : List MemoryRegion
regions =
    record { ty = free; addr = 0x10_0000; page_count = 2 }
    ∷ record { ty = reserved; addr = 0x10_2000; page_count = 8 }
    ∷ record { ty = free; addr = 0x20_0000; page_count = 16 }
    ∷ []

abbrev pub small_map : MemoryMap
small_map = record { entries = regions; next_free_entry_idx = 3 }

abbrev pub fresh : FrameAllocator
fresh = record { memory_map = small_map; next = 0; mapping_offset = 0 }

unfoldable pub fresh-IsReady : IsReady 0 fresh
unfolding deref
fresh-IsReady = record {
  regions = regions;
  readable = refl;
  few = omega arith;
  disjoint = omega arith;
  paged = omega arith;
  mapped_at = refl;
  offset_small = omega arith;
}

third_frame :
    allocate_frame (record fresh { next = 2 }) ≡ ok (some 0x20_0000, record fresh { next = 3 })
unfolding allocate_frame
third_frame = refl

allocate_frame_example :
    (1 ≡ fresh.next + 1)
    × Origin 0x10_0000 regions
    × ((later_one after : FrameAllocator)
        → later_one.memory_map ≡ fresh.memory_map
        → allocate_frame later_one ≡ ok (some 0x10_0000, after)
        → later_one.next ≡ fresh.next)
unfolding allocate_frame fresh-IsReady
allocate_frame_example =
    allocate_frame_lem 0 fresh (record fresh { next = 1 }) 0x10_0000 fresh-IsReady refl

allocate_frame-exhausted_example :
    (0 < free_pages regions
      → (f : ℕ) × (allocate_frame fresh ≡ ok (some f, record fresh { next = 1 })))
    × (free_pages regions ≤ 0 → allocate_frame fresh ≡ ok (none, record fresh { next = 1 }))
unfolding fresh-IsReady
allocate_frame-exhausted_example = allocate_frame-exhausted 0 fresh fresh-IsReady

abbrev pub value {ℓ} : {A : Type ℓ} → Outcome A → A → A
value (ok a) b = a
value _ b = b

abbrev pub booted : Machine FrameAllocator
booted = record { alloc = fresh; tables = λ _ _. 7; invalidated = [] }

unfoldable pub rooted : Machine FrameAllocator
rooted = (value (allocate_page_table booted) (0, booted)).1

abbrev pub root : ℕ
root = 0x10_0000

pub root_allocated : allocate_page_table booted ≡ ok (root, rooted)
unfolding allocate_page_table allocate_frame rooted new_checked
root_allocated = refl

root_example : IsSound (frame_pool 0) 0 root rooted
root_example = allocate_page_table-IsSound 0 booted rooted root fresh-IsReady root_allocated

frame_allocator_example : IsAllocator (frame_pool 0) 0 frame_allocator
frame_allocator_example = frame_allocator-IsAllocator 0

mapped : Machine FrameAllocator
mapped =
    value
      (map_address_impl frame_allocator root 0x7777_7777_0000 0x5000 check_frame_is_free 0 rooted)
      rooted

mapping_succeeds :
    map_address_impl frame_allocator root 0x7777_7777_0000 0x5000 check_frame_is_free 0 rooted
    ≡ ok mapped
unfolding mapped rooted map_address_impl map_aligned create_next_table is_present
    allocate_page_table allocate_frame new_checked finish_mapping set_l1_entry
mapping_succeeds = refl

map_address_impl_example :
    IsSound (frame_pool 0) 0 root mapped
    × ((v : VirtAddr)
        → IsCanonical v
        → v % 4096 ≡ 0
        → page_frame mapped.tables 0 root v
          ≡ (if v == 0x7777_7777_0000 then some 0x5000 else page_frame rooted.tables 0 root v))
map_address_impl_example =
    map_address_impl_lem (frame_pool 0) 0 root frame_allocator (frame_allocator-IsAllocator 0)
      rooted mapped 0x7777_7777_0000 0x5000 check_frame_is_free root_example (omega arith)
      (omega arith) mapping_succeeds

page_mapped : page_frame mapped.tables 0 root 0x7777_7777_0000 ≡ some 0x5000
page_mapped = map_address_impl_example.1 0x7777_7777_0000 (omega arith) refl

pub rooted-empty : (v : ℕ) → page_frame rooted.tables 0 root v ≡ none
unfolding rooted allocate_page_table allocate_frame new_checked is_present
rooted-empty v = refl

pub rooted-HasFrames : HasFrames 0 6 rooted.alloc
unfolding rooted allocate_page_table allocate_frame new_checked deref
rooted-HasFrames = record {
  ready = record {
    regions = regions;
    readable = refl;
    few = omega arith;
    disjoint = omega arith;
    paged = omega arith;
    mapped_at = refl;
    offset_small = omega arith;
  };
  left = omega arith;
}

map_address_impl-total_example :
    (m' : Machine FrameAllocator) × (map_address_impl frame_allocator root 0x7777_7777_0000 0x5000
        check_frame_is_free 0 rooted
      ≡ ok m')
    × HasFrames 0 3 m'.alloc
map_address_impl-total_example =
    map_address_impl-total 0 3 root 0x7777_7777_0000 0x5000 rooted refl refl root_example
      (rooted-empty 0x7777_7777_0000) rooted-HasFrames
