-- ===== src/PageTable/Pages.antt =====
-- Mapping and looking up pages, told by addresses instead of slots.
use ferr_os.Base.{
  ℕ, ◌+◌, ◌%◌, ◌^◌, ◌<◌, ◌≡◌, refl, inl, inr, some, arith, ◌==◌, ◌!=◌, if◌then◌else◌, ==_iff,
  Bool-cases, u64, ok,
}
use ferr_os.Addr.{VirtAddr, p4_index, p3_index, p2_index, p1_index}
use ferr_os.Addr.Laws.{IsCanonical, same_indices}
use ferr_os.PageTable.{
  Tables, addr, is_present, Machine, PageTablesAllocator, MappingMode, map_address_impl,
  get_physical_address,
}
use ferr_os.PageTable.Entry.{addr-eq}
use ferr_os.PageTable.Mapping.{Pool, IsAllocator, IsSound}
use ferr_os.PageTable.Translate.{table_path, page_frame, IsMapped, map_address_impl-IsMapped}

no_offset : (e : ℕ) → u64 (addr e + 0) ≡ addr e
no_offset e = omega (arith, addr-eq e)

-- `get_physical_address` is the walk with no offset.
pub get_physical_address-eq :
    (tables : Tables) (root : ℕ) (v : VirtAddr)
    → get_physical_address tables root v ≡ page_frame tables 0 root v
unfolding get_physical_address is_present
get_physical_address-eq tables root v =
    let e4 = tables root (p4_index v) in
    let e3 = tables (addr e4) (p3_index v) in
    let e2 = tables (addr e3) (p2_index v) in
    ground (arith, no_offset e4, no_offset e3, no_offset e2)

aligned :
    (virt phys : ℕ) {S : Type 0} (allocator : PageTablesAllocator S) (root : ℕ) (mode : MappingMode)
    (offset : ℕ) (m m' : Machine S)
    → map_address_impl allocator root virt phys mode offset m ≡ ok m'
    → virt % 4096 ≡ 0
unfolding map_address_impl
aligned virt phys allocator root mode offset m m' e = elim (Bool-cases (virt % 4096 != 0)) [
  | inl odd ↦ absurd (cc (rw odd at e))
  | inr even ↦ ground arith
]

module _ {S : Type 0} (pool : Pool S) (offset root : ℕ) (allocator : PageTablesAllocator S)
    (law : IsAllocator pool offset allocator) where
  -- In a sound tree of page tables, which an allocator of unused tables extends, a successful
  -- mapping of a canonical address to a frame below 2^52, in either mode, leads the page to the
  -- frame, leaves the frame of every other canonical page as it was, and keeps the tree sound.
  pub map_address_impl_lem :
      (m m' : Machine S) (virt phys : ℕ) (mode : MappingMode)
      → IsSound pool offset root m
      → IsCanonical virt
      → phys < 2 ^ 52
      → map_address_impl allocator root virt phys mode offset m ≡ ok m'
      → IsSound pool offset root m'
        × ((v : VirtAddr)
            → IsCanonical v
            → v % 4096 ≡ 0
            → page_frame m'.tables offset root v
              ≡ (if v == virt then some phys else page_frame m.tables offset root v))
  map_address_impl_lem m m' virt phys mode s canonical small e = (mapped.sound, page)
    where
      mapped : IsMapped pool offset root m m' (table_path virt) (p1_index virt) phys
      mapped =
          map_address_impl-IsMapped pool offset root allocator law m m' virt phys mode s small e

      page :
          (v : VirtAddr)
          → IsCanonical v
          → v % 4096 ≡ 0
          → page_frame m'.tables offset root v
            ≡ (if v == virt then some phys else page_frame m.tables offset root v)
      page v hv pv = elim (Bool-cases (v == virt)) [
        | inl same ↦ rw (same, (==_iff v virt).0 same) mapped.at
        | inr different ↦ rw different (
            mapped.others (table_path v) (p1_index v) refl λ path index. cc (
              different,
              (==_iff v virt).1 (
                  same_indices v virt hv canonical pv
                    (aligned virt phys allocator root mode offset m m' e) (cc) (cc) (cc) index),
            ))
      ]
