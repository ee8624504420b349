-- ===== src/HeapSetup/Filled.antt =====
-- src/allocator.rs: setting up the heap, by the frames that are free.
use ferr_os.Base.{
  ℕ, zero, suc, ◌+◌, ◌-◌, ◌*◌, ◌%◌, ◌^◌, ◌≤◌, ◌<◌, ◌≡◌, refl, ◌∙◌, ◌≢◌, inl, inr, none, arith, ltb,
  ltb→lt, ne→not_==, Bool-cases, ok, expect,
}
use ferr_os.Addr.{VirtAddr, offset}
use ferr_os.Addr.Laws.{IsCanonical, offset_lem, new-IsCanonical}
use ferr_os.PageTable.{Machine, map_address_with_offset}
use ferr_os.PageTable.Mapping.{IsSound}
use ferr_os.FrameAllocator.{FrameAllocator}
use ferr_os.FrameAllocator.Supply.{frame_pool}
use ferr_os.FrameAllocator.Tables.{advanced, taken-IsSound}
use ferr_os.FrameAllocator.Enough.{HasFrames, fewer, allocate_frame-Leaves, map_address_impl-total}
use ferr_os.Memory.{virt_mapping_offset}
use ferr_os.HeapSetup.{heap_start, heap_size, map_heap_page, map_heap, init_heap}
use ferr_os.HeapSetup.Mapped.{frame_at, map_heap_page_lem, map_heap_lem}
use ferr_os.HeapSetup.Rounds.{init_heap-eq}

abbrev Sound : ℕ → Machine FrameAllocator → Type 0
Sound root m = IsSound (frame_pool virt_mapping_offset) virt_mapping_offset root m

map_heap_page-total :
    (k root heap : ℕ) (m : Machine FrameAllocator)
    → heap % 4096 ≡ 0
    → Sound root m
    → frame_at root m heap ≡ none
    → HasFrames virt_mapping_offset (4 + k) m.alloc
    → (m' : Machine FrameAllocator) × (map_heap_page root heap m ≡ ok m')
      × HasFrames virt_mapping_offset k m'.alloc
unfolding map_heap_page map_address_with_offset
map_heap_page-total k root heap m whole s free h =
    let (f, taken, page, left) =
      allocate_frame-Leaves virt_mapping_offset (3 + k) m.alloc
        (fewer virt_mapping_offset (4 + k) (suc (3 + k)) m.alloc (omega arith) h) in
    let (m', e, left') =
      map_address_impl-total virt_mapping_offset k root heap f
        (record m { alloc = advanced m.alloc }) whole page.0
        (taken-IsSound virt_mapping_offset root m s) free left in
    (m', rw (taken, e) refl, left')

-- The pages of the heap have no frame.
abbrev pub IsUnmapped : ℕ → ℕ → ℕ → Machine FrameAllocator → Type 0
IsUnmapped root heap heap_end m =
    (v : VirtAddr) → v % 4096 ≡ 0 → heap ≤ v → v < heap_end → frame_at root m v ≡ none

map_heap-total :
    (fuel root heap heap_end : ℕ) (m : Machine FrameAllocator)
    → heap_end ≤ 2 ^ 47 - 4096
    → heap % 4096 ≡ 0
    → heap < heap_end + 4096
    → heap_end + 4096 ≤ heap + fuel * 4096
    → Sound root m
    → IsUnmapped root heap heap_end m
    → HasFrames virt_mapping_offset (4 * fuel) m.alloc
    → (m' : Machine FrameAllocator) × (map_heap fuel root heap heap_end m ≡ ok m')
unfolding map_heap
map_heap-total zero root heap heap_end m small whole near enough s free h = absurd (omega arith)
map_heap-total (suc fuel) root heap heap_end m small whole near enough s free h =
    elim (Bool-cases (ltb heap heap_end)) [
      | inr done ↦ rw done (m, refl)
      | inl more ↦
          let below : heap < heap_end = ltb→lt heap heap_end more in
          let (m1, page, left) =
            map_heap_page-total (4 * fuel) root heap m whole s (free heap whole (omega arith) below)
              (fewer virt_mapping_offset (4 * suc fuel) (4 + 4 * fuel) m.alloc (omega arith) h) in
          let step : expect (offset heap 4096) ≡ ok (heap + 4096) = ground (
            arith,
            offset_lem heap 4096,
            (new-IsCanonical (heap + 4096)).2 (ground (arith, more)),
          ) in
          let (s1, f, pages) = map_heap_page_lem root heap m m1 s (ground (arith, more)) page in
          let still : IsUnmapped root (heap + 4096) heap_end m1 = λ v whole' from to.
            pages v (omega arith, inl (omega arith)) whole'
            ∙ rw (ne→not_== v heap (λ same. omega (arith, same, from)))
                (free v whole' (omega arith) to) in
          let (m', rest) =
            map_heap-total fuel root (heap + 4096) heap_end m1 small (omega arith) (omega arith)
              (omega arith) s1 still left in
          rw (more, page, step) (m', rest)
    ]

-- In a sound tree of tables, where the heap's pages have no frame and 304 frames are free,
-- setting up the heap succeeds. The tree stays sound, each page of the heap has a frame, and the
-- pages before and behind it have the frame that they had.
pub init_heap-total :
    (root : ℕ) (m : Machine FrameAllocator)
    → Sound root m
    → IsUnmapped root heap_start (heap_start + heap_size) m
    → HasFrames virt_mapping_offset 304 m.alloc
    → (m' : Machine FrameAllocator) × (init_heap root m ≡ ok m')
      × Sound root m'
      × ((v : VirtAddr)
          → IsCanonical v
          → v % 4096 ≡ 0
          → (heap_start ≤ v → v < heap_start + heap_size → frame_at root m' v ≢ none)
            × (v < heap_start → frame_at root m' v ≡ frame_at root m v)
            × (heap_start + heap_size ≤ v → frame_at root m' v ≡ frame_at root m v))
init_heap-total root m s free h =
    let (m', e) =
      map_heap-total 76 root heap_start (heap_start + heap_size) m (omega arith) refl (omega arith)
        (omega arith) s free h in
    let (sound, pages) =
      map_heap_lem 76 root heap_start (heap_start + heap_size) m m' s refl (omega arith) e in
    (m', init_heap-eq root m ∙ e, sound, pages)
