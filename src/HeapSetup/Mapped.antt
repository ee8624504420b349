-- ===== src/HeapSetup/Mapped.antt =====
-- src/allocator.rs: the frames of the heap's pages.
use ferr_os.Base.{
  ℕ, zero, suc, ◌+◌, ◌-◌, ◌%◌, ◌^◌, ◌≤◌, ◌<◌, ◌≡◌, refl, sym, ap, ◌∙◌, ◌≢◌, inl, inr, false, Option,
  none, some, arith, ltb, ◌==◌, if◌then◌else◌, ne→not_==, Bool-cases, Option-cases, get_elem?, ok,
  expect,
}
use ferr_os.Base.{>>=-eq-ok, expect-eq-ok}
use mathlib.Core.Path.{subst}
use ferr_os.Addr.{VirtAddr, offset}
use ferr_os.Addr.Laws.{IsCanonical, offset_lem, new-IsCanonical}
use ferr_os.PageTable.{Machine, map_address_with_offset, check_frame_is_free}
use ferr_os.PageTable.Mapping.{IsSound}
use ferr_os.PageTable.Translate.{page_frame}
use ferr_os.PageTable.Pages.{map_address_impl_lem}
use ferr_os.FrameAllocator.{frames_of, FrameAllocator, frame_allocator}
use ferr_os.FrameAllocator.Frames.{frames_of-Origin}
use ferr_os.FrameAllocator.Supply.{
  frame_pool, Origin-IsFrame, allocate_frame-run, allocate_frame-next,
}
use ferr_os.FrameAllocator.Tables.{frame_allocator-IsAllocator, advanced, taken-IsSound}
use ferr_os.Memory.{virt_mapping_offset}
use ferr_os.HeapSetup.{map_heap_page, map_heap}

abbrev pub frame_at : ℕ → Machine FrameAllocator → VirtAddr → Option ℕ
frame_at root m v = page_frame m.tables virt_mapping_offset root v

pub map_heap_page_lem :
    (root heap : ℕ) (m m' : Machine FrameAllocator)
    → IsSound (frame_pool virt_mapping_offset) virt_mapping_offset root m
    → IsCanonical heap
    → map_heap_page root heap m ≡ ok m'
    → IsSound (frame_pool virt_mapping_offset) virt_mapping_offset root m'
      × (f : ℕ) × ((v : VirtAddr)
          → IsCanonical v
          → v % 4096 ≡ 0
          → frame_at root m' v ≡ (if v == heap then some f else frame_at root m v))
unfolding map_heap_page map_address_with_offset
map_heap_page_lem root heap m m' s canonical e =
    let run = allocate_frame-run m.alloc s.ready.regions s.ready.readable in
    elim (Option-cases (get_elem? (frames_of s.ready.regions) m.alloc.next)) [
      | inl none_left ↦ absurd (cc (rw (run, none_left, map_heap_page) at e))
      | inr (f, there) ↦
          let frame =
            Origin-IsFrame f s.ready.regions s.ready.paged
              (frames_of-Origin s.ready.regions m.alloc.next f s.ready.disjoint there) in
          let mapped = expect-eq-ok _ (
            rw (allocate_frame-next virt_mapping_offset m.alloc f s.ready there, map_heap_page) at
              e) in
          let (sound, pages) =
            map_address_impl_lem (frame_pool virt_mapping_offset) virt_mapping_offset root
              frame_allocator (frame_allocator-IsAllocator virt_mapping_offset)
              (record m { alloc = advanced m.alloc }) m' heap f check_frame_is_free
              (taken-IsSound virt_mapping_offset root m s) canonical (omega arith) mapped in
          (sound, f, pages)
    ]

-- In a sound tree of tables, mapping a heap that starts at a page, where it succeeds, keeps the
-- tree sound; after it each page of the heap has a frame, and the pages before and behind it
-- have the frame that they had.
pub map_heap_lem :
    (fuel root heap heap_end : ℕ) (m m' : Machine FrameAllocator)
    → IsSound (frame_pool virt_mapping_offset) virt_mapping_offset root m
    → heap % 4096 ≡ 0
    → heap_end ≤ 2 ^ 47 - 4096
    → map_heap fuel root heap heap_end m ≡ ok m'
    → IsSound (frame_pool virt_mapping_offset) virt_mapping_offset root m'
      × ((v : VirtAddr)
          → IsCanonical v
          → v % 4096 ≡ 0
          → (heap ≤ v → v < heap_end → frame_at root m' v ≢ none)
            × (v < heap → frame_at root m' v ≡ frame_at root m v)
            × (heap_end ≤ v → frame_at root m' v ≡ frame_at root m v))
unfolding map_heap
map_heap_lem zero root heap heap_end m m' s whole small e = cc
map_heap_lem (suc fuel) root heap heap_end m m' s whole small e =
    elim (Bool-cases (ltb heap heap_end)) [
      | inr done ↦
          let same : m ≡ m' = cc (rw (done, map_heap) at e) in
          (
            subst (IsSound (frame_pool virt_mapping_offset) virt_mapping_offset root) same s,
            λ v c p. (
              λ from to. absurd (ground (arith, done)),
              λ before. ap (λ x. frame_at root x v) (sym same),
              λ after. ap (λ x. frame_at root x v) (sym same),
            ),
          )
      | inl more ↦
          let (m1, page, rest) =
            >>=-eq-ok (map_heap_page root heap m) _ (rw (more, map_heap) at e) in
          let step : expect (offset heap 4096) ≡ ok (heap + 4096) = ground (
            arith,
            offset_lem heap 4096,
            (new-IsCanonical (heap + 4096)).2 (ground (arith, more)),
          ) in
          let (s1, f, pages) = map_heap_page_lem root heap m m1 s (ground (arith, more)) page in
          let (sound, later) =
            map_heap_lem fuel root (heap + 4096) heap_end m1 m' s1 (omega arith) small
              (rw step at rest) in
          (
            sound,
            λ v c p.
                let (mapped, before, after) = later v c p in
                let kept : (v == heap) ≡ false → frame_at root m1 v ≡ frame_at root m v =
                  λ ne. pages v c p ∙ rw ne refl in
                (
                  λ from to. elim (Bool-cases (v == heap)) [
                    | inl same ↦ λ none_.
                        let got : frame_at root m1 v ≡ some f = pages v c p ∙ rw same refl in
                        absurd (cc (none_, before (ground (arith, same)), got))
                    | inr different ↦ mapped (ground (arith, different)) to
                  ],
                  λ below.
                      before (omega arith) ∙ kept (ne→not_== v heap (λ q. absurd (omega arith))),
                  λ above.
                      after above ∙ kept (ne→not_== v heap (λ q. absurd (ground (arith, more)))),
                ),
          )
    ]
