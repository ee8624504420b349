-- ===== src/FrameAllocator/Supply.antt =====
-- What the frame allocator gives: frames of free regions, no frame twice, and how many.
use ferr_os.Base.{
  ℕ, ◌+◌, ◌*◌, ◌%◌, ◌^◌, ◌≤◌, ◌<◌, ◌≡◌, ap, ap₂, ◌∙◌, inl, inr, Option, none, some, List, [], ◌∷◌,
  arith, ltb, ltb→lt, Bool-cases, length, get_elem?, All, u64, ok,
}
use ferr_os.Base.{get_elem?-of_lt, get_elem?-of_le}
use ferr_os.PageTable.Mapping.{Pool}
use ferr_os.FrameAllocator.{
  is_free, max_memory_map_size, MemoryRegion, FrameAllocator, frames_of, deref, allocate_frame,
}
use ferr_os.FrameAllocator.Frames.{
  region_end, IsMemoryMap, Origin, here, later, frames_of-Origin, frames_of-distinct,
  length-frames_of, free_pages,
}

-- Regions of whole pages below 64 TiB.
abbrev pub IsPaged : MemoryRegion → Type 0
IsPaged r = (r.addr % 4096 ≡ 0) × (region_end r ≤ 2 ^ 46)

-- A memory map that the allocator can serve from, mapped at `offset`. It fits the array of entries.
pub record IsReady (offset : ℕ) (s : FrameAllocator) : Type 0 where
  pub regions : List MemoryRegion
  pub readable : deref s.memory_map ≡ ok regions
  pub few : length regions ≤ max_memory_map_size
  pub disjoint : IsMemoryMap regions
  pub paged : All IsPaged regions
  pub mapped_at : s.mapping_offset ≡ offset
  pub offset_small : offset < 2 ^ 46

-- A table that a later call may return.
pub record IsReserved (offset : ℕ) (s : FrameAllocator) (t : ℕ) : Type 0 where
  pub regions : List MemoryRegion
  pub readable : deref s.memory_map ≡ ok regions
  pub index : ℕ
  pub frame : ℕ
  pub to_come : s.next ≤ index
  pub at : get_elem? (frames_of regions) index ≡ some frame
  pub table : t ≡ frame + offset

abbrev pub frame_pool : ℕ → Pool FrameAllocator
frame_pool offset = record { Ready = IsReady offset; Reserved = IsReserved offset }

pub Origin-IsFrame :
    (f : ℕ) (rs : List MemoryRegion) → All IsPaged rs → Origin f rs → (f % 4096 ≡ 0) × (f < 2 ^ 46)
Origin-IsFrame f [] _ o = elim o [ ]
Origin-IsFrame f (r ∷ rs) (p, _) (here j free_ range at) = omega arith
Origin-IsFrame f (r ∷ rs) (_, ps) (later o) = Origin-IsFrame f rs ps o

free_pages-le : (rs : List MemoryRegion) → All IsPaged rs → free_pages rs ≤ length rs * 2 ^ 34
free_pages-le [] _ = omega arith
free_pages-le (r ∷ rs) (paged, rest) = elim (Bool-cases (is_free r.ty)) [
  | inl yes_ ↦ rw yes_ (omega (arith, free_pages-le rs rest))
  | inr no_ ↦ rw no_ (omega (arith, free_pages-le rs rest))
]

-- The counter does not wrap while frames are left.
next_small :
    (offset : ℕ) (s : FrameAllocator) (ready : IsReady offset s)
    → s.next < free_pages ready.regions
    → u64 (s.next + 1) ≡ s.next + 1
next_small offset s ready below = omega (arith, free_pages-le ready.regions ready.paged, ready.few)

next_below :
    (offset : ℕ) (s : FrameAllocator) (f : ℕ) (ready : IsReady offset s)
    → get_elem? (frames_of ready.regions) s.next ≡ some f
    → s.next < free_pages ready.regions
next_below offset s f ready at = elim (Bool-cases (ltb s.next (free_pages ready.regions))) [
  | inl below ↦ ltb→lt s.next (free_pages ready.regions) below
  | inr beyond ↦
      let past : free_pages ready.regions ≤ s.next = ground arith in
      absurd (
        cc (
          at,
          get_elem?-of_le (frames_of ready.regions) s.next
              (omega (arith, length-frames_of ready.regions ready.disjoint)),
        ))
]

-- An allocation gives the frame at the counter, and moves the counter on by one, modulo 2^64.
allocate_frame-eq :
    (s s' : FrameAllocator) (rs : List MemoryRegion) (f : Option ℕ)
    → deref s.memory_map ≡ ok rs
    → allocate_frame s ≡ ok (f, s')
    → (get_elem? (frames_of rs) s.next ≡ f) × (s' ≡ record s { next = u64 (s.next + 1) })
unfolding allocate_frame
allocate_frame-eq s s' rs f e h = ground arith

-- A frame that a ready allocator gives is a page of a free region, and the counter moves on by
-- one. Two allocations from one memory map that give the same frame are at the same place of the
-- counter.
pub allocate_frame_lem :
    (offset : ℕ) (s s' : FrameAllocator) (f : ℕ)
    → (ready : IsReady offset s) → allocate_frame s ≡ ok (some f, s')
    → (s'.next ≡ s.next + 1)
      × Origin f ready.regions
      × ((later_one after : FrameAllocator)
          → later_one.memory_map ≡ s.memory_map
          → allocate_frame later_one ≡ ok (some f, after)
          → later_one.next ≡ s.next)
allocate_frame_lem offset s s' f ready e = (
  ap (λ (x : FrameAllocator). x.next) here_.1
      ∙ next_small offset s ready (next_below offset s f ready here_.0),
  frames_of-Origin ready.regions s.next f ready.disjoint here_.0,
  λ l a same again.
      frames_of-distinct ready.regions l.next s.next f ready.disjoint
        (allocate_frame-eq l a ready.regions (some f) (ap deref same ∙ ready.readable) again).0
        here_.0,
)
  where
    here_ :
        (get_elem? (frames_of ready.regions) s.next ≡ some f)
        × (s' ≡ record s { next = u64 (s.next + 1) })
    here_ = allocate_frame-eq s s' ready.regions (some f) ready.readable e

pub allocate_frame-run :
    (s : FrameAllocator) (rs : List MemoryRegion)
    → deref s.memory_map ≡ ok rs
    → allocate_frame s ≡ ok (get_elem? (frames_of rs) s.next, record s { next = u64 (s.next + 1) })
unfolding allocate_frame
allocate_frame-run s rs e = ground arith

pub allocate_frame-next :
    (offset : ℕ) (s : FrameAllocator) (f : ℕ) (ready : IsReady offset s)
    → get_elem? (frames_of ready.regions) s.next ≡ some f
    → allocate_frame s ≡ ok (some f, record s { next = s.next + 1 })
allocate_frame-next offset s f ready at =
    allocate_frame-run s ready.regions ready.readable
    ∙ ap₂ (λ x n. ok (x, record s { next = n })) at
        (next_small offset s ready (next_below offset s f ready at))

-- A ready allocator gives a frame where its counter is below the number of free pages, and the
-- counter moves on by one. Where the counter is that number or more, it gives none, and the
-- counter moves on by one modulo 2^64.
pub allocate_frame-exhausted :
    (offset : ℕ) (s : FrameAllocator) (ready : IsReady offset s)
    → (s.next < free_pages ready.regions
        → (f : ℕ) × (allocate_frame s ≡ ok (some f, record s { next = s.next + 1 })))
      × (free_pages ready.regions ≤ s.next
          → allocate_frame s ≡ ok (none, record s { next = u64 (s.next + 1) }))
allocate_frame-exhausted offset s ready = (
  λ below.
      let (f, at) =
        get_elem?-of_lt (frames_of ready.regions) s.next
          (omega (arith, length-frames_of ready.regions ready.disjoint)) in
      (f, allocate_frame-next offset s f ready at),
  λ beyond.
      allocate_frame-run s ready.regions ready.readable
      ∙ ap (λ x. ok (x, record s { next = u64 (s.next + 1) }))
          (get_elem?-of_le (frames_of ready.regions) s.next
            (omega (arith, length-frames_of ready.regions ready.disjoint))),
)
