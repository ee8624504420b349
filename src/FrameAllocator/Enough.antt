-- ===== src/FrameAllocator/Enough.antt =====
-- shared_lib/src/page_table.rs with shared_lib/src/frame_allocator.rs: the frames that
-- a mapping takes.
use ferr_os.Base.{
  ℕ, suc, ◌+◌, ◌%◌, ◌^◌, ◌≤◌, ◌<◌, ◌≡◌, refl, sym, ap, ◌∙◌, ◌⊎◌, inl, inr, false, none, some, [],
  ◌∷◌, arith, ◌==◌, Bool-cases, get_elem?, Outcome, ok, err,
}
use mathlib.Core.Path.{subst}
use ferr_os.PageTable.Growth.{entry_of, frame_of}
use ferr_os.PageTable.Mapping.{IsSound, create_next_table-IsDescent}
use ferr_os.PageTable.Translate.{table_path, page_frame}
use ferr_os.Addr.{VirtAddr, p4_index, p3_index, p2_index, p1_index}
use ferr_os.PageTable.{
  Machine, MappingMode, check_frame_is_free, remapping, is_present, addr, create_next_table,
  finish_mapping, set_l1_entry, map_aligned, map_address_impl, clear,
}
use ferr_os.FrameAllocator.{
  allocate_frame, FrameAllocator, frames_of, allocate_page_table, frame_allocator,
}
use ferr_os.FrameAllocator.Frames.{frames_of-Origin, free_pages}
use ferr_os.FrameAllocator.Supply.{
  frame_pool, IsReady, Origin-IsFrame, allocate_frame-run, allocate_frame-exhausted,
}
use ferr_os.FrameAllocator.Tables.{frame_allocator-IsAllocator, advanced, mapped_page}

-- At least this many frames are left.
pub record HasFrames (offset k : ℕ) (a : FrameAllocator) : Type 0 where
  pub ready : IsReady offset a
  pub left : a.next + k ≤ free_pages ready.regions

-- A call that gives a value and leaves this many frames.
abbrev pub Leaves : {A : Type 0} → ℕ → ℕ → Outcome (A × Machine FrameAllocator) → Type 0
Leaves {A} offset k outcome =
    (a : A) × (m' : Machine FrameAllocator) × (outcome ≡ ok (a, m')) × HasFrames offset k m'.alloc

pub fewer :
    (offset k j : ℕ) (a : FrameAllocator) → j ≤ k → HasFrames offset k a → HasFrames offset j a
fewer offset k j a le h = record { ready = h.ready; left = omega (arith, h.left) }

-- The next frame, a page below 2^46.
pub allocate_frame-Leaves :
    (offset k : ℕ) (a : FrameAllocator)
    → HasFrames offset (suc k) a
    → (f : ℕ) × (allocate_frame a ≡ ok (some f, advanced a))
      × ((f % 4096 ≡ 0) × (f < 2 ^ 46))
      × HasFrames offset k (advanced a)
allocate_frame-Leaves offset k a h =
    let r = h.ready in
    let (f, taken) = (allocate_frame-exhausted offset a r).0 (omega (arith, h.left)) in
    let at : get_elem? (frames_of r.regions) a.next ≡ some f =
      cc (taken, allocate_frame-run a r.regions r.readable) in
    let origin = frames_of-Origin r.regions a.next f r.disjoint at in
    let still : IsReady offset (advanced a) = record {
      regions = r.regions;
      readable = r.readable;
      few = r.few;
      disjoint = r.disjoint;
      paged = r.paged;
      mapped_at = r.mapped_at;
      offset_small = r.offset_small;
    } in
    (
      f,
      taken,
      Origin-IsFrame f r.regions r.paged origin,
      record { ready = still; left = omega (arith, h.left) },
    )

allocate_page_table-Leaves :
    (offset k : ℕ) (m : Machine FrameAllocator)
    → HasFrames offset (suc k) m.alloc
    → Leaves offset k (allocate_page_table m)
unfolding allocate_page_table
allocate_page_table-Leaves offset k m h =
    let (f, taken, low, left) = allocate_frame-Leaves offset k m.alloc h in
    let page =
      mapped_page offset f (advanced m.alloc) h.ready.mapped_at h.ready.offset_small low.1 in
    let table = f + offset in
    (
      table,
      record m { alloc = advanced m.alloc; tables = clear m.tables table },
      rw (taken, page) refl,
      left,
    )

create_next_table-Leaves :
    (offset k o table index : ℕ) (m : Machine FrameAllocator)
    → HasFrames offset (suc k) m.alloc
    → Leaves offset k (create_next_table frame_allocator table index o m)
unfolding create_next_table
create_next_table-Leaves offset k o table index m h =
    elim (Bool-cases (is_present (m.tables table index))) [
      | inl there ↦ rw there (_, m, refl, fewer offset (suc k) k m.alloc (omega arith) h)
      | inr missing ↦
          let (t, m1, e, left) = allocate_page_table-Leaves offset k m h in
          rw (missing, e) (_, _, refl, left)
    ]

-- What a mapping gives: a value, or the error that the page has another frame.
abbrev pub Maps : ℕ → ℕ → MappingMode → Outcome (Machine FrameAllocator) → Type 0
Maps offset k mode outcome =
    ((m' : Machine FrameAllocator) × (outcome ≡ ok m') × HasFrames offset k m'.alloc)
    ⊎ ((mode ≡ check_frame_is_free)
        × (outcome ≡ err "this virtual address already mapped to another frame"))

finish_mapping-Maps :
    (offset k table index phys : ℕ) (mode : MappingMode) (m : Machine FrameAllocator)
    → HasFrames offset k m.alloc
    → Maps offset k mode (finish_mapping mode table index phys m)
unfolding finish_mapping set_l1_entry
finish_mapping-Maps offset k table index phys mode m h =
    elim (Bool-cases (is_present (m.tables table index))) [
      | inr missing ↦ rw missing (inl (_, refl, h))
      | inl there ↦ elim (Bool-cases (addr (m.tables table index) == phys)) [
        | inl same ↦ rw (there, same) (inl (m, refl, h))
        | inr other ↦ rw (there, other) (by_mode mode)
      ]
    ]
  where
    by_mode :
        (mode' : MappingMode)
        → Maps offset k mode' (elim mode' [
          | check_frame_is_free ↦ err "this virtual address already mapped to another frame"
          | remapping ↦ set_l1_entry table index phys m
        ])
    by_mode check_frame_is_free = inr (refl, refl)
    by_mode remapping = inl (_, refl, h)

-- A mapping
pub map_address_impl-Maps :
    (offset k o root : ℕ) (virt : VirtAddr) (phys : ℕ) (mode : MappingMode)
    (m : Machine FrameAllocator)
    → virt % 4096 ≡ 0
    → phys % 4096 ≡ 0
    → HasFrames offset (3 + k) m.alloc
    → Maps offset k mode (map_address_impl frame_allocator root virt phys mode o m)
unfolding map_address_impl map_aligned
map_address_impl-Maps offset k o root virt phys mode m whole whole' h =
    let (t3, m3, e3, h3) =
      create_next_table-Leaves offset (2 + k) o root (p4_index virt) m
        (fewer offset (3 + k) (suc (2 + k)) m.alloc (omega arith) h) in
    let (t2, m2, e2, h2) =
      create_next_table-Leaves offset (1 + k) o t3 (p3_index virt) m3
        (fewer offset (2 + k) (suc (1 + k)) m3.alloc (omega arith) h3) in
    let (t1, m1, e1, h1) =
      create_next_table-Leaves offset k o t2 (p2_index virt) m2
        (fewer offset (1 + k) (suc k) m2.alloc (omega arith) h2) in
    rw (whole, whole', e3, e2, e1) (finish_mapping-Maps offset k t1 (p1_index virt) phys mode m1 h1)

-- An entry that gives no frame is not present.
no_frame : (entry : ℕ) → frame_of entry ≡ none → is_present entry ≡ false
no_frame entry e = elim (Bool-cases (is_present entry)) [
  | inr absent ↦ absent
  | inl there ↦ absurd (cc (rw there at e))
]

finish_fresh :
    (table index phys : ℕ) (m : Machine FrameAllocator)
    → is_present (m.tables table index) ≡ false
    → (m' : Machine FrameAllocator) × (finish_mapping check_frame_is_free table index phys m
        ≡ ok m')
      × (m'.alloc ≡ m.alloc)
unfolding finish_mapping set_l1_entry
finish_fresh table index phys m absent = rw absent (_, refl, refl)

-- In a sound tree of tables, mapping a page that has no frame, to a page-aligned address, in the
-- checking mode, succeeds if three frames are free, and takes at most three.
pub map_address_impl-total :
    (offset k root : ℕ) (virt : VirtAddr) (phys : ℕ) (m : Machine FrameAllocator)
    → virt % 4096 ≡ 0
    → phys % 4096 ≡ 0
    → IsSound (frame_pool offset) offset root m
    → page_frame m.tables offset root virt ≡ none
    → HasFrames offset (3 + k) m.alloc
    → (m' : Machine FrameAllocator) × (map_address_impl frame_allocator root virt phys
          check_frame_is_free offset m
        ≡ ok m')
      × HasFrames offset k m'.alloc
unfolding map_address_impl map_aligned
map_address_impl-total offset k root virt phys m whole whole' s free h =
    let law = frame_allocator-IsAllocator offset in
    let (t3, m3, e3, h3) =
      create_next_table-Leaves offset (2 + k) offset root (p4_index virt) m
        (fewer offset (3 + k) (suc (2 + k)) m.alloc (omega arith) h) in
    let d3 =
      create_next_table-IsDescent (frame_pool offset) offset root frame_allocator law m s [] root
        (p4_index virt) refl (omega arith) m3 t3 e3 in
    let (t2, m2, e2, h2) =
      create_next_table-Leaves offset (1 + k) offset t3 (p3_index virt) m3
        (fewer offset (2 + k) (suc (1 + k)) m3.alloc (omega arith) h3) in
    let d2 =
      create_next_table-IsDescent (frame_pool offset) offset root frame_allocator law m3 d3.sound
        (p4_index virt ∷ []) t3 (p3_index virt) d3.place (omega arith) m2 t2 e2 in
    let (t1, m1, e1, h1) =
      create_next_table-Leaves offset k offset t2 (p2_index virt) m2
        (fewer offset (1 + k) (suc k) m2.alloc (omega arith) h2) in
    let d1 =
      create_next_table-IsDescent (frame_pool offset) offset root frame_allocator law m2 d2.sound
        (p4_index virt ∷ p3_index virt ∷ []) t2 (p2_index virt) d2.place (omega arith) m1 t1 e1 in
    let absent : is_present (m1.tables t1 (p1_index virt)) ≡ false =
      no_frame (m1.tables t1 (p1_index virt)) (
        sym (ap (entry_of m1.tables (p1_index virt)) d1.place)
        ∙ d1.kept (table_path virt) (p1_index virt) refl
        ∙ d2.kept (table_path virt) (p1_index virt) refl
        ∙ d3.kept (table_path virt) (p1_index virt) refl
        ∙ free) in
    let (m', e, same) = finish_fresh t1 (p1_index virt) phys m1 absent in
    rw (whole, whole', e3, e2, e1) (m', e, subst (HasFrames offset k) (sym same) h1)
