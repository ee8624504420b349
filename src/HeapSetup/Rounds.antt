-- ===== src/HeapSetup/Rounds.antt =====
-- src/allocator.rs: the rounds of the loop over the heap's pages.
use ferr_os.Base.{
  ℕ, zero, suc, ◌+◌, ◌-◌, ◌*◌, ◌^◌, ◌≤◌, ◌<◌, bit_and, ◌≡◌, refl, sym, ◌%◌, ◌!=◌, inl, inr, Bool,
  true, false, ◌||◌, arith, ltb, ◌==◌, if◌then◌else◌, Bool-cases, u64, Outcome, ok, err, panic,
  ◌>>=◌, expect, expect_some,
}
use ferr_os.Base.{Ends, gave, failed, panicked, Ends->>=, Ends-expect, Ends-expect_some}
use mathlib.Core.Path.{subst}
use ferr_os.Addr.{new, new_checked, offset, p4_index, p3_index, p2_index, p1_index}
use ferr_os.Addr.Laws.{offset_lem, new-IsCanonical}
use ferr_os.PageTable.{
  Machine, MappingMode, check_frame_is_free, remapping, set_l1_entry, finish_mapping,
  create_next_table, map_aligned, map_address_impl, map_address_with_offset,
}
use ferr_os.FrameAllocator.{
  deref, FrameAllocator, frames_of, allocate_frame, allocate_page_table, frame_allocator,
}
use ferr_os.Memory.{virt_mapping_offset}
use ferr_os.HeapSetup.{heap_start, heap_size, map_heap_page, map_heap, init_heap}

Ends-if : {A : Type 0} (b : Bool) (x y : Outcome A) → Ends x → Ends y → Ends (if b then x else y)
Ends-if true x y h k = h
Ends-if false x y h k = k

allocate_frame-Ends : (s : FrameAllocator) → Ends (allocate_frame s)
unfolding allocate_frame deref
allocate_frame-Ends s =
    Ends->>= (deref s.memory_map >>= λ regions. ok (frames_of regions)) _
      (Ends->>= (deref s.memory_map) _ (Ends-if _ panic _ panicked (gave _)) λ _. gave _)
      λ _. gave _

new_checked-Ends : (a : ℕ) → Ends (new_checked a)
unfolding new_checked
new_checked-Ends a =
    let high = bit_and a 0xffff_8000_0000_0000 in
    Ends-if (high == 0 || high == 0xffff_8000_0000_0000) (ok a) _ (gave a) (
      Ends-if (high == 0x0000_8000_0000_0000) (ok (new a)) (err "Virt addr not valid") (gave _)
        (failed _))

offset-Ends : (a by : ℕ) → Ends (offset a by)
unfolding offset
offset-Ends a by = Ends-if _ _ _ (failed _) (gave _)

allocate_page_table-Ends : (m : Machine FrameAllocator) → Ends (allocate_page_table m)
unfolding allocate_page_table
allocate_page_table-Ends m =
    Ends->>= (allocate_frame m.alloc) _ (allocate_frame-Ends m.alloc) λ (allocated, alloc).
      Ends->>= (expect_some allocated) _ (Ends-expect_some allocated) λ frame.
        Ends->>= (expect (new_checked (u64 (frame + alloc.mapping_offset)))) _
          (Ends-expect _ (new_checked-Ends _)) λ _. gave _

create_next_table-Ends :
    (table index o : ℕ) (m : Machine FrameAllocator)
    → Ends (create_next_table frame_allocator table index o m)
unfolding create_next_table
create_next_table-Ends table index o m =
    Ends-if _ _ _ (gave _)
      (Ends->>= (allocate_page_table m) _ (allocate_page_table-Ends m) λ _. gave _)

finish_mapping-Ends :
    (mode : MappingMode) (table index phys : ℕ) (m : Machine FrameAllocator)
    → Ends (finish_mapping mode table index phys m)
unfolding finish_mapping set_l1_entry
finish_mapping-Ends check_frame_is_free table index phys m =
    Ends-if _ _ _ (Ends-if _ _ _ (gave _) (failed _)) (gave _)
finish_mapping-Ends remapping table index phys m =
    Ends-if _ _ _ (Ends-if _ _ _ (gave _) (gave _)) (gave _)

-- A mapping ends.
pub map_address_impl-Ends :
    (root virt phys : ℕ) (mode : MappingMode) (o : ℕ) (m : Machine FrameAllocator)
    → Ends (map_address_impl frame_allocator root virt phys mode o m)
unfolding map_address_impl map_aligned
map_address_impl-Ends root virt phys mode o m = Ends-if (virt % 4096 != 0) _ _ (failed _) (
    Ends-if (phys % 4096 != 0) _ _ (failed _) (
      Ends->>= (create_next_table frame_allocator root (p4_index virt) o m) _
        (create_next_table-Ends root (p4_index virt) o m)
        λ (t3, m3).
          Ends->>= (create_next_table frame_allocator t3 (p3_index virt) o m3) _
            (create_next_table-Ends t3 (p3_index virt) o m3)
            λ (t2, m2).
              Ends->>= (create_next_table frame_allocator t2 (p2_index virt) o m2) _
                (create_next_table-Ends t2 (p2_index virt) o m2)
                λ (t1, m1). finish_mapping-Ends mode t1 (p1_index virt) phys m1))

map_heap_page-Ends : (root heap : ℕ) (m : Machine FrameAllocator) → Ends (map_heap_page root heap m)
unfolding map_heap_page map_address_with_offset
map_heap_page-Ends root heap m =
    Ends->>= (allocate_frame m.alloc) _ (allocate_frame-Ends m.alloc) λ (allocated, alloc).
      Ends->>= (expect_some allocated) _ (Ends-expect_some allocated) λ frame.
        Ends-expect _
          (map_address_impl-Ends root heap frame check_frame_is_free virt_mapping_offset _)

map_heap-Ends :
    (fuel root heap heap_end : ℕ) (m : Machine FrameAllocator)
    → heap_end ≤ 2 ^ 47 - 4096
    → heap < heap_end + 4096
    → heap_end + 4096 ≤ heap + fuel * 4096
    → Ends (map_heap fuel root heap heap_end m)
unfolding map_heap
map_heap-Ends zero root heap heap_end m small near enough = absurd (omega arith)
map_heap-Ends (suc fuel) root heap heap_end m small near enough =
    elim (Bool-cases (ltb heap heap_end)) [
      | inr done ↦ rw done (gave m)
      | inl more ↦
          let next : expect (offset heap 4096) ≡ ok (heap + 4096) = ground (
            arith,
            offset_lem heap 4096,
            (new-IsCanonical (heap + 4096)).2 (ground (arith, more)),
          ) in
          rw more (
            Ends->>= (map_heap_page root heap m)
              (λ m1. expect (offset heap 4096) >>= λ next'. map_heap fuel root next' heap_end m1)
              (map_heap_page-Ends root heap m)
              λ m1. rw next (
                map_heap-Ends fuel root (heap + 4096) heap_end m1 small (ground (arith, more))
                  (omega arith)))
    ]

heap_end_lem : expect (offset (new heap_start) heap_size) ≡ ok (heap_start + heap_size)
unfolding offset new
heap_end_lem = refl

heap_start_lem : new heap_start ≡ heap_start
unfolding new
heap_start_lem = refl

pub init_heap-eq :
    (root : ℕ) (m : Machine FrameAllocator)
    → init_heap root m ≡ map_heap 76 root heap_start (heap_start + heap_size) m
unfolding init_heap
init_heap-eq root m = rw (heap_end_lem, heap_start_lem) refl

-- Setting up the heap ends, in a value, an error or a panic, whatever the tables and the
-- allocator are.
pub init_heap-Ends : (root : ℕ) (m : Machine FrameAllocator) → Ends (init_heap root m)
init_heap-Ends root m = subst Ends (sym (init_heap-eq root m)) (
    map_heap-Ends 76 root heap_start (heap_start + heap_size) m (omega arith) (omega arith)
      (omega arith))
