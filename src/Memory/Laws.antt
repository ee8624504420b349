-- ===== src/Memory/Laws.antt =====
-- The kernel's translation is the walk of the page tables that `map_address_with_offset` changes.
use ferr_os.Base.{ℕ, ◌+◌, ◌%◌, bit_and, ◌≡◌, none, some, arith, u64}
use ferr_os.Base.Bits.{and_low}
use ferr_os.Addr.{VirtAddr, p4_index, p3_index, p2_index, p1_index, get_page_offset}
use ferr_os.PageTable.{Tables, addr}
use ferr_os.PageTable.Entry.{addr-eq}
use ferr_os.PageTable.Translate.{page_frame}
use ferr_os.Memory.{
  virt_mapping_offset, active_level_4_table, walk_indices, translate_addr_inner, translate_addr,
}

in_page : (e : ℕ) (v : VirtAddr) → u64 (addr e + get_page_offset v) ≡ addr e + v % 4096
unfolding get_page_offset
in_page e v = omega (arith, addr-eq e, and_low 12 v)

swap_offset : (e : ℕ) → u64 (e + virt_mapping_offset) ≡ u64 (virt_mapping_offset + e)
swap_offset e = omega arith

-- translate_addr gives the frame that the active tables have for the page, plus the offset in
-- the page; an address whose page has no frame has no translation.
pub translate_addr-eq :
    (tables : Tables) (cr3 : ℕ) (v : VirtAddr)
    → translate_addr tables cr3 v
      ≡ elim (page_frame tables virt_mapping_offset (active_level_4_table cr3) v) [
        | none ↦ none
        | some frame ↦ some (frame + v % 4096)
      ]
unfolding translate_addr translate_addr_inner walk_indices active_level_4_table
translate_addr-eq tables cr3 v =
    let next = λ (e : ℕ). u64 (addr e + virt_mapping_offset) in
    let e4 = tables (active_level_4_table cr3) (p4_index v) in
    let e3 = tables (next e4) (p3_index v) in
    let e2 = tables (next e3) (p2_index v) in
    let e1 = tables (next e2) (p1_index v) in
    ground (arith, in_page e1 v, swap_offset (bit_and cr3 0x000f_ffff_ffff_f000))
