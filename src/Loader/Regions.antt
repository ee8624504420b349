-- ===== src/Loader/Regions.antt =====
-- loader/src/main.rs: the regions that the kernel is told of.
use ferr_os.Base.{
  ℕ, zero, suc, ◌+◌, ◌≤◌, ◌<◌, ◌≡◌, refl, sym, ap, ◌∙◌, inl, inr, List, [], ◌∷◌, ◌++◌, arith, ltb,
  ltb→lt, lt→ltb, le→not_ltb, Bool-cases, length, set, take, replicate, length-set,
  length-replicate, Outcome, ok, panic, ◌>>=◌,
}
use ferr_os.Base.{>>=-eq-ok}
use mathlib.Core.List.{append_assoc, append-nil}
use ferr_os.FrameAllocator.{MemoryRegion, MemoryMap, max_memory_map_size, new_allocator, deref}
use ferr_os.Loader.{
  MemoryDescriptor, convert_descriptor, empty_region, fill_entries, init_allocator,
}

-- The converted descriptors, if there are no others.
abbrev pub converted : List MemoryDescriptor → Outcome (List MemoryRegion)
converted [] = ok []
converted (d ∷ ds) = do region ← convert_descriptor d; regions ← converted ds; ok (region ∷ regions)

take-set :
    (xs : List MemoryRegion) (i : ℕ) (v : MemoryRegion)
    → i < length xs
    → take (suc i) (set xs i v) ≡ take i xs ++ v ∷ []
take-set [] i v h = elim h [ ]
take-set (x ∷ xs) zero v h = refl
take-set (x ∷ xs) (suc i) v h = ap (λ t. x ∷ t) (take-set xs i v (omega arith))

fill_entries_lem :
    (idx : ℕ) (ds : List MemoryDescriptor) (entries regions : List MemoryRegion)
    → idx + length ds ≤ length entries
    → converted ds ≡ ok regions
    → (filled : List MemoryRegion) × (fill_entries idx ds entries ≡ ok filled)
      × (take (idx + length ds) filled ≡ take idx entries ++ regions)
      × (length filled ≡ length entries)
unfolding fill_entries
fill_entries_lem idx [] entries regions h e =
    let none_ : [] ≡ regions = cc e in
    (
      entries,
      refl,
      ap (λ n. take n entries) (omega arith)
          ∙ sym (append-nil _)
          ∙ ap (λ r. take idx entries ++ r) none_,
      refl,
    )
fill_entries_lem idx (d ∷ ds) entries regions h e =
    let (region, first, e1) = >>=-eq-ok (convert_descriptor d) _ e in
    let (rest, others, e2) = >>=-eq-ok (converted ds) _ e1 in
    let (filled, ends, taken, size) =
      fill_entries_lem (idx + 1) ds (set entries idx region) rest
        (omega (arith, length-set entries idx region)) others in
    let all : region ∷ rest ≡ regions = cc e2 in
    (
      filled,
      rw (first, lt→ltb idx (length entries) (omega arith)) ends,
      ap (λ n. take n filled) (omega arith)
          ∙ taken
          ∙ ap (λ t. t ++ rest)
              (ap (λ n. take n (set entries idx region)) {y = suc idx} (omega arith)
                ∙ take-set entries idx region (omega arith))
          ∙ append_assoc (take idx entries) (region ∷ []) rest
          ∙ ap (λ r. take idx entries ++ r) all,
      size ∙ length-set entries idx region,
    )

fill_entries-full :
    (idx : ℕ) (ds : List MemoryDescriptor) (entries regions : List MemoryRegion)
    → length entries < idx + length ds
    → idx ≤ length entries
    → converted ds ≡ ok regions
    → fill_entries idx ds entries ≡ panic
unfolding fill_entries
fill_entries-full idx [] entries regions h k e = absurd (omega arith)
fill_entries-full idx (d ∷ ds) entries regions h k e =
    let (region, first, e1) = >>=-eq-ok (convert_descriptor d) _ e in
    let (rest, others, e2) = >>=-eq-ok (converted ds) _ e1 in
    elim (Bool-cases (ltb idx (length entries))) [
      | inr full ↦ rw (first, full)
      | inl room ↦
          rw (first, room)
            (fill_entries-full (idx + 1) ds (set entries idx region) rest
              (omega (arith, length-set entries idx region))
              (omega (arith, length-set entries idx region, ltb→lt idx (length entries) room))
              others)
    ]

-- Where every descriptor converts, the kernel is told of exactly the converted descriptors, in
-- their order, and the allocator starts at their first frame. More than 256 are a panic.
pub init_allocator_lem :
    (ds : List MemoryDescriptor) (regions : List MemoryRegion)
    → converted ds ≡ ok regions
    → (length ds ≤ 256
        → (mmap : MemoryMap) × (init_allocator ds ≡ ok (new_allocator mmap 0 0, mmap))
          × (deref mmap ≡ ok regions))
      × (256 < length ds → init_allocator ds ≡ panic)
unfolding init_allocator deref
init_allocator_lem ds regions e = (
  λ fits.
      let blank = length-replicate max_memory_map_size empty_region in
      let (filled, ends, taken, size) =
        fill_entries_lem 0 ds (replicate max_memory_map_size empty_region) regions
          (omega (arith, blank)) e in
      (
        record { entries = filled; next_free_entry_idx = length ds },
        rw ends refl,
        rw (le→not_ltb (length filled) (length ds) (omega (arith, size, blank)))
            (ap ok (ap (λ n. take n filled) (omega arith) ∙ taken)),
      ),
  λ many.
      let blank = length-replicate max_memory_map_size empty_region in
      rw (
        fill_entries-full 0 ds (replicate max_memory_map_size empty_region) regions
          (omega (arith, blank)) (omega arith) e),
)
