-- ===== src/Loader/Tests.antt =====
-- loader/src/main.rs: the theorems on a machine with two free regions.
use ferr_os.Addr.{VirtAddr}
use ferr_os.Base.{All}
use ferr_os.FrameAllocator.Tables.{advanced}
use ferr_os.Base.{
  ℕ, ◌+◌, ◌-◌, ◌*◌, ◌/◌, ◌%◌, ◌≤◌, ◌<◌, ◌≡◌, refl, some, List, [], ◌∷◌, arith, length, ok, panic,
}
use ferr_os.Addr.{new, new_checked, offset, bitand, p4_index, p3_index, p2_index, p1_index}
use ferr_os.PageTable.{
  page_size, present, writable, all_flags, contains, PageTableEntry, empty_entry, set_addr, flags,
  is_present, Tables, write_entry, clear, Machine, PageTablesAllocator, MappingMode,
  check_frame_is_free, remapping, link_next_table, set_l1_entry, finish_mapping, create_next_table,
  map_aligned, map_address_impl, map_address, remap_address, map_address_with_offset,
  get_physical_address, align_down, align_down_u64,
}
use ferr_os.Addr.Laws.{IsCanonical}
use ferr_os.PageTable.Mapping.{IsSound}
use ferr_os.PageTable.Window.{map_window}
use ferr_os.FrameAllocator.{
  MemoryType, MemoryRegion, MemoryMap, deref, FrameAllocator, new_allocator, allocate_frame,
  allocate_page_table,
}
use ferr_os.FrameAllocator.Tests.{
  rooted-empty, rooted-HasFrames, fresh-IsReady, value, booted, rooted, root, root_allocated,
}
use ferr_os.FrameAllocator.Supply.{frame_pool}
use ferr_os.FrameAllocator.Tables.{allocate_page_table-IsSound}
use ferr_os.Memory.{virt_mapping_offset}
use ferr_os.Loader.{
  MemoryDescriptor, conventional, mmio, init_allocator, convert_descriptor, convert_memory_type,
}
use ferr_os.Loader.Regions.{converted, init_allocator_lem}
use ferr_os.Loader.Kernel.{
  load, ProgramHeader, Loading, record_mapping, map_file_pages, remap_pages, split_last_page,
  map_file,
}
use ferr_os.Loader.Setup.{FrameBuffer, map_memory, map_framebuffer, create_stack}
use ferr_os.Loader.Mapped.{
  HasWindow, map_memory_lem, map_framebuffer_lem, create_stack_lem, create_stack-total,
}
use ferr_os.Loader.Segments.{map_file_lem}
use ferr_os.Loader.Bss.{Sound, frame_of, redirected, split_last_page_lem}

root-IsSound : IsSound (frame_pool 0) 0 root rooted
root-IsSound = allocate_page_table-IsSound 0 booted rooted root fresh-IsReady root_allocated

abbrev descriptors : List MemoryDescriptor
descriptors =
    record { ty = conventional; phys_start = 0; page_count = 1 }
    ∷ record { ty = conventional; phys_start = 0x1000; page_count = 4 }
    ∷ record { ty = mmio; phys_start = 0x8000; page_count = 2 }
    ∷ []

abbrev told : List MemoryRegion
told =
    record { ty = MemoryType.reserved; addr = 0; page_count = 1 }
    ∷ record { ty = MemoryType.free; addr = 0x1000; page_count = 4 }
    ∷ record { ty = MemoryType.reserved; addr = 0x8000; page_count = 2 }
    ∷ []

told_lem : converted descriptors ≡ ok told
unfolding convert_descriptor convert_memory_type
told_lem = refl

init_allocator_example :
    (length descriptors ≤ 256
      → (mmap : MemoryMap) × (init_allocator descriptors ≡ ok (new_allocator mmap 0 0, mmap))
        × (deref mmap ≡ ok told))
    × (256 < length descriptors → init_allocator descriptors ≡ panic)
init_allocator_example = init_allocator_lem descriptors told told_lem

after_memory : Machine FrameAllocator
after_memory = value (map_memory root 0x3000 rooted) rooted

memory_mapped : map_memory root 0x3000 rooted ≡ ok after_memory
unfolding after_memory rooted map_memory map_window map_address remap_address map_address_impl
    map_aligned create_next_table is_present flags ferr_os.PageTable.addr set_addr
    allocate_page_table allocate_frame new_checked new offset align_down align_down_u64 bitand
    p4_index p3_index p2_index p1_index finish_mapping set_l1_entry
memory_mapped = refl

map_memory_example : HasWindow root virt_mapping_offset 0 (0x3000 / 4096) rooted after_memory
map_memory_example =
    map_memory_lem root 0x3000 rooted after_memory (omega arith) root-IsSound memory_mapped

abbrev screen : FrameBuffer
screen = record { addr = 0x80_0000; size = 9000 }

after_screen : Machine FrameAllocator
after_screen = value (map_framebuffer root screen rooted) rooted

screen_mapped : map_framebuffer root screen rooted ≡ ok after_screen
unfolding after_screen rooted map_framebuffer map_window map_address remap_address map_address_impl
    map_aligned create_next_table is_present flags ferr_os.PageTable.addr set_addr
    allocate_page_table allocate_frame new_checked new offset align_down align_down_u64 bitand
    p4_index p3_index p2_index p1_index finish_mapping set_l1_entry
screen_mapped = refl

map_framebuffer_test :
    HasWindow root
      (screen.addr + virt_mapping_offset)
      screen.addr
      (screen.size / 4096)
      rooted
      after_screen
map_framebuffer_test =
    map_framebuffer_lem root screen rooted after_screen (omega arith) refl root-IsSound
      screen_mapped

after_stack : Machine FrameAllocator
after_stack = (value (create_stack root 0x40_0000 2 rooted) (0, rooted)).1

stack_mapped : create_stack root 0x40_0000 2 rooted ≡ ok (0x40_1000, after_stack)
unfolding after_stack rooted create_stack map_window map_address remap_address map_address_impl
    map_aligned create_next_table is_present flags ferr_os.PageTable.addr set_addr
    allocate_page_table allocate_frame new_checked new offset align_down align_down_u64 bitand
    p4_index p3_index p2_index p1_index finish_mapping set_l1_entry
stack_mapped = refl

create_stack_test :
    HasWindow root 0x40_0000 0x40_0000 2 rooted after_stack
    × (0x40_1000 + 4096 ≡ 0x40_0000 + 2 * 4096)
create_stack_test =
    create_stack_lem root 0x40_0000 2 0x40_1000 rooted after_stack (omega arith) (omega arith) refl
      root-IsSound stack_mapped

create_stack-total_example :
    (m' : Machine FrameAllocator) × (create_stack root 0x40_0000 2 rooted
      ≡ ok (0x40_0000 + (2 - 1) * 4096, m'))
    × HasWindow root 0x40_0000 0x40_0000 2 rooted m'
create_stack-total_example =
    create_stack-total root 0x40_0000 2 rooted (omega arith) (omega arith) refl root-IsSound
      (λ k hi. rooted-empty (0x40_0000 + k * 4096)) rooted-HasFrames

abbrev header : ProgramHeader
header = record {
  ty = some load;
  file_offset = 0x800;
  virtual_addr = 0x20_0800;
  file_size = 0x900;
  mem_size = 0x1200;
}

abbrev loading : Loading
loading = record { machine = rooted; mapped_frames = []; bytes = λ a. a % 256 }

after_file : Loading
after_file = (value (map_file root header 0x20_0800 0x50_0800 loading) (tt, loading)).1

file_mapped : map_file root header 0x20_0800 0x50_0800 loading ≡ ok (tt, after_file)
unfolding after_file rooted map_file map_file_pages record_mapping map_window map_address
    remap_address map_address_impl map_aligned create_next_table is_present flags
    ferr_os.PageTable.addr set_addr allocate_page_table allocate_frame new_checked new offset
    align_down align_down_u64 bitand p4_index p3_index p2_index p1_index finish_mapping set_l1_entry
file_mapped = refl

map_file_example :
    HasWindow root
      (0x20_0800 / 4096 * 4096)
      (0x50_0800 / 4096 * 4096)
      ((0x20_0800 + 0x900 - 1) / 4096 - 0x20_0800 / 4096 + 1)
      rooted
      after_file.machine
map_file_example =
    map_file_lem root 0x50_0800 header loading after_file (omega arith) (omega arith) refl
      (omega arith) root-IsSound file_mapped

after_split : Loading
after_split = (value (split_last_page root 0x50_1100 0x100 after_file) (tt, after_file)).1

page_split : split_last_page root 0x50_1100 0x100 after_file ≡ ok (tt, after_split)
unfolding after_split after_file rooted map_file map_file_pages record_mapping split_last_page
    remap_pages map_window map_address remap_address map_address_impl map_aligned create_next_table
    is_present flags ferr_os.PageTable.addr set_addr allocate_page_table allocate_frame new_checked
    new offset align_down align_down_u64 bitand p4_index p3_index p2_index p1_index finish_mapping
    set_l1_entry
page_split = refl

after_file-IsCanonical : All (λ entry. IsCanonical entry.page) after_file.mapped_frames
unfolding after_file rooted map_file map_file_pages record_mapping map_window map_address
    remap_address map_address_impl map_aligned create_next_table is_present flags
    ferr_os.PageTable.addr set_addr allocate_page_table allocate_frame new_checked new offset
    align_down align_down_u64 bitand p4_index p3_index p2_index p1_index finish_mapping set_l1_entry
after_file-IsCanonical = omega arith

split_last_page_example :
    (frame : ℕ) × (allocate_frame after_file.machine.alloc
      ≡ ok (some frame, advanced after_file.machine.alloc))
    × Sound root after_split
    × ((v : VirtAddr)
        → IsCanonical v
        → v % 4096 ≡ 0
        → frame_of root v after_split
          ≡ redirected
              (align_down_u64 0x50_1100)
              frame
              v
              after_file.mapped_frames
              (frame_of root v after_file))
    × ((k : ℕ)
        → k < 0x100
        → after_split.bytes (frame + k) ≡ after_file.bytes (align_down_u64 0x50_1100 + k))
    × ((k : ℕ) → 0x100 ≤ k → k < 4096 → after_split.bytes (frame + k) ≡ 0)
split_last_page_example =
    split_last_page_lem root 0x50_1100 0x100 after_file after_split map_file_example.0
      after_file-IsCanonical page_split
