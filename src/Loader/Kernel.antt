-- ===== src/Loader/Kernel.antt =====
-- loader/src/main.rs: map_kernel, which gives the kernel's segments their pages and clears
-- the rest of each.
use ferr_os.Base.{
  ℕ, zero, suc, ◌+◌, ◌-◌, ◌*◌, ◌/◌, ◌^◌, bit_and, ◌&&◌, Option, none, some, List, [], ◌∷◌, ◌++◌,
  ltb, leb, ◌==◌, ◌!=◌, if◌then◌else◌, length, u64, Outcome, ok, err, panic, hang, expect,
}
use ferr_os.Base.Io.{Io, ◌>>=◌, ◌>>◌, pure, gets, modify, abort}
use ferr_os.Addr.{VirtAddr, new_checked, offset}
use ferr_os.PageTable.{Machine, map_address, remap_address, align_down, align_down_u64}
use ferr_os.FrameAllocator.{FrameAllocator, allocate_frame, frame_allocator}

pub record MappedEntry : Type 0 where
  pub page : VirtAddr
  pub frame : ℕ

pub data SegmentType : Type 0 where
  load tls other_type : SegmentType

-- A program header of the ELF file; its type is none where it cannot be read.
pub record ProgramHeader : Type 0 where
  pub ty : Option SegmentType
  pub file_offset : ℕ
  pub virtual_addr : ℕ
  pub file_size : ℕ
  pub mem_size : ℕ

-- The tables with the allocator, the array `mapped_frames` up to its counter, and the bytes of
-- memory outside the page tables. The tables lie in that memory too: what the bytes of a frame are
-- that has become a table is not told.
pub record Loading : Type 0 where
  pub machine : Machine FrameAllocator
  pub mapped_frames : List MappedEntry
  pub bytes : ℕ → ℕ

abbrev pub Load : Type 0 → Type 0
Load = Io Loading

abbrev pub lift : {A : Type 0} → Outcome A → Load A
lift (ok a) = pure a
lift (err message) = λ s. err message
lift panic = abort
lift hang = λ s. hang

abbrev pub stored : Loading → Outcome (Machine FrameAllocator) → Outcome (Unit {0} × Loading)
stored s (ok machine) = ok (tt, record s { machine = machine })
stored s (err message) = err message
stored s panic = panic
stored s hang = hang

abbrev pub on_machine :
    (Machine FrameAllocator → Outcome (Machine FrameAllocator)) → Load (Unit {0})
on_machine step s = stored s (step s.machine)

-- `allocator.allocate_frame().expect(…)`
abbrev pub took : Loading → Outcome (Option ℕ × FrameAllocator) → Outcome (ℕ × Loading)
took s (ok (some frame, alloc)) =
    ok (frame, record s { machine = record (s.machine) { alloc = alloc } })
took s hang = hang
took s _ = panic

abbrev pub take_frame : Load ℕ
take_frame s = took s (allocate_frame s.machine.alloc)

-- The array has 100 entries.
unfoldable pub record_mapping : VirtAddr → ℕ → Load (Unit {0})
record_mapping page frame s =
    if ltb (length s.mapped_frames) 100
    then ok (
      tt,
      record s { mapped_frames = s.mapped_frames ++ record { page = page; frame = frame } ∷ [] },
    )
    else panic

-- `core::ptr::copy`, which reads before it writes, and `core::ptr::write_bytes`.
abbrev pub copied : ℕ → ℕ → ℕ → Loading → Loading
copied from to count s = record s {
  bytes = λ a. if leb to a && ltb a (to + count) then s.bytes (from + (a - to)) else s.bytes a;
}

abbrev pub filled : ℕ → ℕ → ℕ → Loading → Loading
filled to value count s = record s {
  bytes = λ a. if leb to a && ltb a (to + count) then value else s.bytes a;
}

abbrev pub copy : ℕ → ℕ → ℕ → Load (Unit {0})
copy from to count = modify (copied from to count)

abbrev pub write_bytes : ℕ → ℕ → ℕ → Load (Unit {0})
write_bytes to value count = modify (filled to value count)

module _ (page_table : ℕ) where
  abbrev pub map_page : VirtAddr → ℕ → Load (Unit {0})
  map_page virt phys = on_machine λ m. expect (map_address frame_allocator page_table virt phys m)

  -- The pages of the file's part, with the number of rounds left.
  unfoldable pub map_file_pages : ℕ → ℕ → VirtAddr → ℕ → Load (Unit {0})
  unfolding record_mapping
  map_file_pages zero i virt_start phys_start = pure tt
  map_file_pages (suc rounds) i virt_start phys_start = do
    virt ← lift (expect (offset virt_start (u64 (i * 4096))))
    map_page virt (u64 (phys_start + u64 (i * 4096)))
    record_mapping virt (u64 (phys_start + u64 (i * 4096)))
    map_file_pages rounds (i + 1) virt_start phys_start

  abbrev pub remap_page : VirtAddr → ℕ → Load (Unit {0})
  remap_page virt phys =
      on_machine λ m. expect (remap_address frame_allocator page_table virt phys m)

  unfoldable pub remap_pages : ℕ → ℕ → List MappedEntry → Load (Unit {0})
  remap_pages frame_to_copy frame [] = pure tt
  remap_pages frame_to_copy frame (entry ∷ entries) = do
    if entry.frame == frame_to_copy then remap_page entry.page frame else pure tt
    remap_pages frame_to_copy frame entries

  -- The last page of the file's part is copied to a new frame, and cleared behind that part.
  unfoldable pub split_last_page : ℕ → ℕ → Load (Unit {0})
  unfolding remap_pages
  split_last_page phys_end bytes_before_zero = do
    frame ← take_frame
    mapped_frames ← gets λ s. s.mapped_frames
    remap_pages (align_down_u64 phys_end) frame mapped_frames
    copy (align_down_u64 phys_end) frame bytes_before_zero
    write_bytes (frame + bytes_before_zero) 0 (4096 - bytes_before_zero)

  unfoldable pub map_zero_pages : ℕ → ℕ → VirtAddr → Load (Unit {0})
  map_zero_pages zero i zero_start = pure tt
  map_zero_pages (suc rounds) i zero_start = do
    frame ← take_frame
    virt ← lift (expect (offset zero_start (u64 (i * 4096))))
    map_page virt frame
    write_bytes frame 0 4096
    map_zero_pages rounds (i + 1) zero_start

  unfoldable pub map_bss : ProgramHeader → VirtAddr → ℕ → Load (Unit {0})
  unfolding split_last_page map_zero_pages
  map_bss header virt_start phys_end = do
    zero_start ← lift (expect (offset virt_start header.file_size))
    lift (expect (offset virt_start header.mem_size))
    let inside = bit_and zero_start 0xfff
    if inside != 0 then split_last_page phys_end inside else pure tt
    let before = if inside != 0 then inside else 4096
    if ltb (4096 - before) (header.mem_size - header.file_size)
        then (do
          aligned ← lift (expect (offset zero_start (4096 - before)))
          map_zero_pages (1 + (header.mem_size - header.file_size - (4096 - before)) / 4096) 0
              aligned)
        else pure tt

  -- Rounds of the loop over the pages of the file's part.
  abbrev pub file_pages : ℕ → VirtAddr → ℕ
  file_pages file_size virt_start =
      1 + u64 (u64 (file_size - 1 + virt_start) + 2 ^ 64 - align_down virt_start) / 4096

  unfoldable pub map_file : ProgramHeader → VirtAddr → ℕ → Load (Unit {0})
  unfolding map_file_pages record_mapping
  map_file header virt_start phys_start =
      if header.file_size != 0
      then map_file_pages (file_pages header.file_size virt_start) 0 (align_down virt_start)
          (align_down_u64 phys_start)
      else (do
        map_page (align_down virt_start) (align_down_u64 phys_start)
        record_mapping (align_down virt_start) (align_down_u64 phys_start))

  unfoldable pub map_segment : ℕ → ProgramHeader → Load (Unit {0})
  unfolding map_file map_bss
  map_segment kernel header = do
    let phys_start = u64 (kernel + header.file_offset)
    let phys_end = u64 (phys_start + header.file_size)
    virt_start ← lift (expect (new_checked header.virtual_addr))
    map_file header virt_start phys_start
    if ltb header.file_size header.mem_size then map_bss header virt_start phys_end else pure tt

  abbrev pub map_header : ℕ → Option SegmentType → ProgramHeader → Load (Unit {0})
  map_header kernel none header = abort
  map_header kernel (some load) header = map_segment kernel header
  map_header kernel (some tls) header = abort
  map_header kernel (some other_type) header = pure tt

  unfoldable pub map_segments : ℕ → List ProgramHeader → Load (Unit {0})
  unfolding map_segment
  map_segments kernel [] = pure tt
  map_segments kernel (header ∷ headers) = do
    map_header kernel header.ty header
    map_segments kernel headers

  unfoldable pub map_kernel :
      List ProgramHeader
      → ℕ
      → (ℕ → ℕ)
      → Machine FrameAllocator
      → Outcome (Machine FrameAllocator × (ℕ → ℕ))
  unfolding map_segments
  map_kernel headers kernel bytes m =
      elim (map_segments kernel headers
        (record { machine = m; mapped_frames = []; bytes = bytes })) [
          | ok (_, s) ↦ ok (s.machine, s.bytes)
          | err message ↦ err message
          | panic ↦ panic
          | hang ↦ hang
        ]
