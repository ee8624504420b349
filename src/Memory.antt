-- ===== src/Memory.antt =====
-- src/memory.rs: the active top-level table, and the translation of an address through the
-- mapping of all memory at `virt_mapping_offset` (shared_lib/src/lib.rs). The value of CR3 is an
-- argument.
pub mod Laws
mod Tests
use ferr_os.Base.{ℕ, ◌+◌, bit_and, Option, none, some, List, [], ◌∷◌, if◌then◌else◌, u64}
use ferr_os.Addr.{VirtAddr, p4_index, p3_index, p2_index, p1_index, get_page_offset}
use ferr_os.PageTable.{Tables, is_present, addr}

abbrev pub virt_mapping_offset : ℕ
virt_mapping_offset = 0x180_0000_0000

unfoldable pub active_level_4_table : ℕ → ℕ
active_level_4_table cr3 = u64 (virt_mapping_offset + bit_and cr3 0x000f_ffff_ffff_f000)

-- The loop over the indices, from the frame reached so far.
pub walk_indices : Tables → ℕ → List ℕ → Option ℕ
walk_indices tables frame [] = some frame
walk_indices tables frame (index ∷ indices) =
    let entry = tables (u64 (frame + virt_mapping_offset)) index in
    let rest = walk_indices tables (addr entry) indices in if is_present entry then rest else none

pub translate_addr_inner : Tables → ℕ → VirtAddr → Option ℕ
translate_addr_inner tables cr3 virt =
    let table_indexes = p4_index virt ∷ p3_index virt ∷ p2_index virt ∷ p1_index virt ∷ [] in
    elim (walk_indices tables (bit_and cr3 0x000f_ffff_ffff_f000) table_indexes) [
      | none ↦ none
      | some frame ↦ some (u64 (frame + get_page_offset virt))
    ]

pub translate_addr : Tables → ℕ → VirtAddr → Option ℕ
translate_addr tables cr3 virt = translate_addr_inner tables cr3 virt
