-- ===== src/PageTable.antt =====
-- shared_lib/src/page_table.rs: page tables, walks, and the mapping of one page.
--
-- Tables stand in memory, so the model has a store of them: the entry at an index of the table
-- that starts at an address, as the running code addresses it. An error is a panic in every
-- caller, so what an erroneous call has already written is not kept.
pub mod Entry
pub mod Tree
pub mod Growth
pub mod Leaf
pub mod Mapping
pub mod Translate
pub mod Pages
pub mod Window
mod Tests
use ferr_os.Base.{
  ℕ, ◌+◌, ◌-◌, ◌%◌, ◌^◌, bit_and, bit_or, Bool, not, Option, none, some, List, ◌∷◌, ◌==◌, ◌!=◌,
  if◌then◌else◌, u64, ◌<<◌, Outcome, ok, err, ◌>>=◌,
}
use ferr_os.Addr.{VirtAddr, new, p4_index, p3_index, p2_index, p1_index, bitand}

abbrev pub page_size : ℕ
page_size = 4096

-- `PageTableFlags`: bits 0 to 11 and 52 to 63 are flags.
abbrev pub present : ℕ
present = 1

abbrev pub writable : ℕ
writable = 1 << 1

abbrev pub all_flags : ℕ
all_flags = 0xfff0_0000_0000_0fff

abbrev pub contains : ℕ → ℕ → Bool
contains flags other = bit_and flags other == other

-- `PageTableEntry` is its `u64`.
abbrev pub PageTableEntry : Type 0
PageTableEntry = ℕ

abbrev pub empty_entry : PageTableEntry
empty_entry = 0

unfoldable pub set_addr : ℕ → ℕ → PageTableEntry
set_addr addr flags = bit_or addr flags

unfoldable pub flags : PageTableEntry → ℕ
flags self = bit_and self all_flags

unfoldable pub is_present : PageTableEntry → Bool
unfolding flags
is_present self = contains (flags self) present

unfoldable pub addr : PageTableEntry → ℕ
addr self = bit_and self 0x000f_ffff_ffff_f000

-- The entry at an index of the table at an address.
abbrev pub Tables : Type 0
Tables = ℕ → ℕ → PageTableEntry

abbrev pub write_entry : Tables → ℕ → ℕ → PageTableEntry → Tables
write_entry tables table index entry t i =
    if t == table then (if i == index then entry else tables t i) else tables t i

-- `PageTable::clear`.
abbrev pub clear : Tables → ℕ → Tables
clear tables table t i = if t == table then empty_entry else tables t i

-- What a mapping changes: the allocator `S`, the tables, and the addresses given to `invlpg`,
-- the last one first.
pub record Machine (S : Type 0) : Type 0 where
  pub alloc : S
  pub tables : Tables
  pub invalidated : List ℕ

-- The trait: a new table's address, and the state after.
pub record PageTablesAllocator (S : Type 0) : Type 0 where
  pub allocate_page_table : Machine S → Outcome (VirtAddr × Machine S)

pub data MappingMode : Type 0 where
  check_frame_is_free : MappingMode
  remapping : MappingMode

-- The entry of the upper table is made to lead to the new one.
abbrev pub link_next_table :
    {S : Type 0} → ℕ → ℕ → ℕ → VirtAddr × Machine S → Outcome (VirtAddr × Machine S)
link_next_table table index offset (new_table, m) = ok (
  new_table,
  record m {
    tables =
        write_entry m.tables table index
          (set_addr (u64 (new_table + 2 ^ 64 - offset)) (bit_or present writable));
  },
)

module _ {S : Type 0} where
  -- The write to the last entry, and the `invlpg` after it.
  unfoldable pub set_l1_entry : ℕ → ℕ → ℕ → Machine S → Outcome (Machine S)
  set_l1_entry l1_table index phys m = ok (record m {
    tables = write_entry m.tables l1_table index (set_addr phys (bit_or present writable));
    invalidated = phys ∷ m.invalidated;
  })

  -- An error carries no state: every caller in the repository panics on it.
  unfoldable pub finish_mapping : MappingMode → ℕ → ℕ → ℕ → Machine S → Outcome (Machine S)
  finish_mapping mode l1_table index phys m =
      let l1_entry = m.tables l1_table index in
      if is_present l1_entry
      then if addr l1_entry == phys then ok m else elim mode [
        | check_frame_is_free ↦ err "this virtual address already mapped to another frame"
        | remapping ↦ set_l1_entry l1_table index phys m
      ]
      else set_l1_entry l1_table index phys m

module _ {S : Type 0} (allocator : PageTablesAllocator S) where
  -- The entry is given by its table and index.
  unfoldable pub create_next_table : ℕ → ℕ → ℕ → Machine S → Outcome (VirtAddr × Machine S)
  create_next_table table index offset m =
      let entry = m.tables table index in
      if is_present entry
      then ok (u64 (addr entry + offset), m)
      else allocator.allocate_page_table m >>= link_next_table table index offset

  -- The part of `map_address_impl` behind the checks of alignment.
  unfoldable pub map_aligned : ℕ → VirtAddr → ℕ → MappingMode → ℕ → Machine S → Outcome (Machine S)
  map_aligned l4_table virt phys mode offset m = do
    (l3_table, m3) ← create_next_table l4_table (p4_index virt) offset m
    (l2_table, m2) ← create_next_table l3_table (p3_index virt) offset m3
    (l1_table, m1) ← create_next_table l2_table (p2_index virt) offset m2
    finish_mapping mode l1_table (p1_index virt) phys m1

  unfoldable pub map_address_impl :
      ℕ → VirtAddr → ℕ → MappingMode → ℕ → Machine S → Outcome (Machine S)
  map_address_impl l4_table virt phys mode offset m =
      if virt % 4096 != 0
      then err "Virtual address must be aligned!"
      else if phys % 4096 != 0
      then err "Physical address must be aligned!"
      else map_aligned l4_table virt phys mode offset m

  unfoldable pub map_address : ℕ → VirtAddr → ℕ → Machine S → Outcome (Machine S)
  map_address l4_table virt phys = map_address_impl l4_table virt phys check_frame_is_free 0

  unfoldable pub remap_address : ℕ → VirtAddr → ℕ → Machine S → Outcome (Machine S)
  remap_address l4_table virt phys = map_address_impl l4_table virt phys remapping 0

  unfoldable pub map_address_with_offset : ℕ → VirtAddr → ℕ → ℕ → Machine S → Outcome (Machine S)
  map_address_with_offset l4_table virt phys offset =
      map_address_impl l4_table virt phys check_frame_is_free offset

unfoldable pub get_physical_address : Tables → ℕ → VirtAddr → Option ℕ
get_physical_address tables l4_table virt =
    let l4_entry = tables l4_table (p4_index virt) in
    if not (contains (flags l4_entry) present)
    then none
    else let l3_entry = tables (addr l4_entry) (p3_index virt) in
      if not (contains (flags l3_entry) present)
      then none
      else let l2_entry = tables (addr l3_entry) (p2_index virt) in
        if not (contains (flags l2_entry) present)
        then none
        else let l1_entry = tables (addr l2_entry) (p1_index virt) in
          if not (contains (flags l1_entry) present) then none else some (addr l1_entry)

unfoldable pub align_down : VirtAddr → VirtAddr
align_down val = bitand val (new 0xffff_ffff_ffff_f000)

unfoldable pub align_down_u64 : ℕ → ℕ
align_down_u64 val = bit_and val 0xffff_ffff_ffff_f000
