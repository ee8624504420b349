-- ===== src/FrameAllocator.antt =====
-- shared_lib/src/frame_allocator.rs: the memory map and the bump allocator of physical frames.
pub mod Frames
pub mod Supply
pub mod Tables
pub mod Enough
pub mod Runs
pub mod Tests
use ferr_os.Base.{
  ℕ, zero, suc, ◌+◌, ◌-◌, ◌*◌, ◌/◌, Bool, true, false, Option, List, [], ◌∷◌, ◌++◌, map, ltb,
  if◌then◌else◌, length, get_elem?, take, u64, Outcome, ok, panic, ◌>>=◌, expect, expect_some,
}
use ferr_os.Addr.{VirtAddr, new_checked}
use ferr_os.PageTable.{Machine, PageTablesAllocator, clear}

pub data MemoryType : Type 0 where
  free reserved in_use acpi1_3 acpi_reclaim acpi1_4 : MemoryType

abbrev pub is_free : MemoryType → Bool
is_free MemoryType.free = true
is_free _ = false

pub record MemoryRegion : Type 0 where
  pub ty : MemoryType
  pub addr : ℕ
  pub page_count : ℕ

abbrev pub max_memory_map_size : ℕ
max_memory_map_size = 256

-- A `MemoryRegion` takes 24 bytes.
abbrev pub memory_map_pages : ℕ
memory_map_pages = 1 + 24 * max_memory_map_size / 4096

pub record MemoryMap : Type 0 where
  pub entries : List MemoryRegion
  pub next_free_entry_idx : ℕ

-- `Deref`: the slice panics where the index passes the array's end.
unfoldable pub deref : MemoryMap → Outcome (List MemoryRegion)
deref map =
    if ltb (length map.entries) map.next_free_entry_idx
    then panic
    else ok (take map.next_free_entry_idx map.entries)

-- The memory map is read through a pointer and never written.
pub record FrameAllocator : Type 0 where
  pub memory_map : MemoryMap
  pub next : ℕ
  pub mapping_offset : ℕ

unfoldable pub new_allocator : MemoryMap → ℕ → ℕ → FrameAllocator
new_allocator memory_map mapping_offset next_free_frame = record {
  memory_map = memory_map;
  next = next_free_frame;
  mapping_offset = mapping_offset;
}

-- `(start..end).step_by(4096)`, with the number of rounds left.
unfoldable pub step_by : ℕ → ℕ → List ℕ
step_by zero start = []
step_by (suc rounds) start = start ∷ step_by rounds (start + 4096)

-- The end wraps, as in a release build; an empty range has no round.
unfoldable pub region_frames : MemoryRegion → List ℕ
unfolding step_by
region_frames r =
    let end = u64 (r.addr + u64 (4096 * r.page_count)) in
    step_by ((end - r.addr + 4095) / 4096) r.addr

unfoldable pub frames_of : List MemoryRegion → List ℕ
unfolding region_frames
frames_of [] = []
frames_of (r ∷ regions) =
    if is_free r.ty then region_frames r ++ frames_of regions else frames_of regions

unfoldable pub usable_frames : FrameAllocator → Outcome (List ℕ)
unfolding deref frames_of
usable_frames self = do regions ← deref self.memory_map; ok (frames_of regions)

-- `None` is a frame that is not there; a panic comes from the slice. The counter is a usize.
unfoldable pub allocate_frame : FrameAllocator → Outcome (Option ℕ × FrameAllocator)
unfolding usable_frames
allocate_frame self = do
  frames ← usable_frames self
  ok (get_elem? frames self.next, record self { next = u64 (self.next + 1) })

unfoldable pub allocate_page_table :
    Machine FrameAllocator → Outcome (VirtAddr × Machine FrameAllocator)
allocate_page_table m = do
  (allocated, alloc) ← allocate_frame m.alloc
  frame ← expect_some allocated
  page ← expect (new_checked (u64 (frame + alloc.mapping_offset)))
  ok (page, record m { alloc = alloc; tables = clear m.tables page })

abbrev pub frame_allocator : PageTablesAllocator FrameAllocator
frame_allocator = record { allocate_page_table = allocate_page_table }
