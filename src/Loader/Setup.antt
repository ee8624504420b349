-- ===== src/Loader/Setup.antt =====
-- loader/src/main.rs: the mappings of all memory, the frame buffer, the stack and the boot
-- information. Where the code reads the address of a function or of a value, it is an argument.
use ferr_os.Base.{ℕ, ◌+◌, ◌-◌, ◌*◌, ◌/◌, ◌^◌, List, u64, Outcome, ok, ◌>>=◌, expect}
use ferr_os.Addr.{VirtAddr, new, new_checked}
use ferr_os.PageTable.{Machine, map_address, align_down, align_down_u64}
use ferr_os.PageTable.Window.{map_window}
use ferr_os.FrameAllocator.{FrameAllocator, frame_allocator, memory_map_pages}
use ferr_os.Memory.{virt_mapping_offset}
use ferr_os.Loader.Kernel.{ProgramHeader, map_kernel}

-- `addr` and `size` of a `FrameBufferInfo`.
pub record FrameBuffer : Type 0 where
  pub addr : ℕ
  pub size : ℕ

module _ (page_table : ℕ) where
  abbrev pub memory_page : ℕ → Outcome VirtAddr
  memory_page i = ok (new (u64 (i * 4096 + virt_mapping_offset)))

  -- All memory up to the last frame.
  unfoldable pub map_memory : ℕ → Machine FrameAllocator → Outcome (Machine FrameAllocator)
  map_memory last_frame_addr =
      map_window frame_allocator page_table 0 memory_page (λ i. i * 4096) (last_frame_addr / 4096) 0

  abbrev pub frame_buffer_page : FrameBuffer → ℕ → Outcome VirtAddr
  frame_buffer_page fb i = new_checked (u64 (u64 (fb.addr + i * 4096) + virt_mapping_offset))

  unfoldable pub map_framebuffer :
      FrameBuffer → Machine FrameAllocator → Outcome (Machine FrameAllocator)
  map_framebuffer fb =
      map_window frame_allocator page_table 0 (frame_buffer_page fb) (λ i. u64 (fb.addr + i * 4096))
        (fb.size / 4096) 0

  abbrev pub stack_page : ℕ → ℕ → Outcome VirtAddr
  stack_page stack_addr i = new_checked (u64 (stack_addr + i * 4096))

  -- Returns the stack's top too.
  unfoldable pub create_stack :
      ℕ → ℕ → Machine FrameAllocator → Outcome (ℕ × Machine FrameAllocator)
  create_stack stack_addr stack_depth m = do
    mapped ←
        map_window frame_allocator page_table 0 (stack_page stack_addr)
          (λ i. u64 (stack_addr + i * 4096)) stack_depth 0 m
    ok (u64 (stack_addr + u64 (stack_depth + 2 ^ 64 - 1) * 4096), mapped)

  -- The page at an address to itself.
  abbrev pub map_own_page : ℕ → Machine FrameAllocator → Outcome (Machine FrameAllocator)
  map_own_page ptr m = do
    virt ← expect (new_checked ptr)
    expect (map_address frame_allocator page_table (align_down virt) (align_down_u64 ptr) m)

  unfoldable pub setup_mappings :
      ℕ
      → List ProgramHeader
      → ℕ
      → ℕ
      → FrameBuffer
      → ℕ
      → (ℕ → ℕ)
      → Machine FrameAllocator
      → Outcome (VirtAddr × Machine FrameAllocator × (ℕ → ℕ))
  unfolding map_memory map_framebuffer
  setup_mappings last_frame_addr headers entry kernel fb ctx_switch_ptr bytes m = do
    m1 ← map_memory last_frame_addr m
    (m2, bytes') ← expect (map_kernel page_table headers kernel bytes m1)
    m3 ← expect (map_framebuffer fb m2)
    m4 ← map_own_page ctx_switch_ptr m3
    entry_point ← expect (new_checked entry)
    ok (entry_point, m4, bytes')

  unfoldable pub map_bootinfo : ℕ → ℕ → Machine FrameAllocator → Outcome (Machine FrameAllocator)
  map_bootinfo boot_info_ptr entries_ptr m = do
    m1 ← map_own_page boot_info_ptr m
    map_window frame_allocator page_table 0
        (λ i. new_checked (u64 (align_down_u64 entries_ptr + i * 4096)))
        (λ i. u64 (align_down_u64 entries_ptr + i * 4096)) (memory_map_pages + 1) 0 m1
