-- ===== src/Loader.antt =====
-- loader/src/main.rs: the memory map that the loader hands over, and the kernel's mappings.
--
-- What UEFI and the ELF file say is given by arguments: the descriptors of the memory map, the
-- program headers, and the addresses of the frame buffer, the stack and the boot information. The
-- tables stand at offset 0, since the loader runs with all memory mapped to itself.
pub mod Regions
pub mod Kernel
pub mod Setup
pub mod Mapped
pub mod Segments
pub mod Bss
mod Tests
use ferr_os.Base.{
  ℕ, zero, suc, ◌+◌, ◌-◌, ◌*◌, ◌/◌, ◌%◌, ◌^◌, ◌≤◌, ◌<◌, min, max, bit_and, bit_or, bit_xor, String,
  ◌≡◌, refl, sym, ap, ap₂, ◌∙◌, ◌≢◌, ◌↔◌, ◌⊎◌, inl, inr, Bool, true, false, not, ◌&&◌, ◌||◌, Option,
  none, some, List, [], ◌∷◌, ◌++◌, map, arith, ltb, leb, ◌==◌, ◌!=◌, if◌then◌else◌, ltb→lt, lt→ltb,
  le→not_ltb, ==_iff, ==_self, ne→not_==, tests, Bool-cases, Option-cases, all_below,
  all_below_sound, length, get_elem?, get_or, set, take, drop, replicate, length-append, length-set,
  length-replicate, get_elem?-set_self, get_elem?-set_ne, All, u8, u16, u32, u64, ◌<<◌, ◌>>◌,
  complement, Outcome, ok, err, panic, hang, ◌>>=◌, expect, expect_some,
}
use ferr_os.FrameAllocator.{
  MemoryType, MemoryRegion, MemoryMap, max_memory_map_size, FrameAllocator, new_allocator,
}

-- `uefi::table::boot::MemoryType`
pub data UefiMemoryType : Type 0 where
  reserved loader_code loader_data boot_services_code boot_services_data : UefiMemoryType
  runtime_services_code runtime_services_data conventional unusable : UefiMemoryType
  acpi_reclaim acpi_non_volatile mmio mmio_port_space pal_code persistent_memory : UefiMemoryType
  custom : ℕ → UefiMemoryType

pub record MemoryDescriptor : Type 0 where
  pub ty : UefiMemoryType
  pub phys_start : ℕ
  pub page_count : ℕ

unfoldable pub convert_memory_type : UefiMemoryType → Outcome MemoryType
convert_memory_type mmio_port_space = ok MemoryType.reserved
convert_memory_type mmio = ok MemoryType.reserved
convert_memory_type reserved = ok MemoryType.reserved
convert_memory_type unusable = ok MemoryType.reserved
convert_memory_type persistent_memory = ok MemoryType.free
convert_memory_type conventional = ok MemoryType.free
convert_memory_type loader_data = ok MemoryType.free
convert_memory_type loader_code = ok MemoryType.free
convert_memory_type boot_services_code = ok MemoryType.free
convert_memory_type boot_services_data = ok MemoryType.free
convert_memory_type acpi_non_volatile = ok MemoryType.acpi1_3
convert_memory_type runtime_services_code = ok MemoryType.acpi1_3
convert_memory_type runtime_services_data = ok MemoryType.acpi1_3
convert_memory_type acpi_reclaim = ok MemoryType.acpi_reclaim
convert_memory_type pal_code = ok MemoryType.acpi1_4
convert_memory_type (custom _) = panic

-- The region of a descriptor; the one at address 0 is not used.
unfoldable pub convert_descriptor : MemoryDescriptor → Outcome MemoryRegion
unfolding convert_memory_type
convert_descriptor d =
    let converted = (do
      ty ← convert_memory_type d.ty
      ok (record { ty = ty; addr = d.phys_start; page_count = d.page_count })) in
    if d.phys_start == 0
    then ok (record { ty = MemoryType.reserved; addr = d.phys_start; page_count = d.page_count })
    else converted

abbrev pub empty_region : MemoryRegion
empty_region = record { ty = MemoryType.reserved; addr = 0; page_count = 0 }

-- The loop over the descriptors, the next one for the entry `idx`.
unfoldable pub fill_entries :
    ℕ → List MemoryDescriptor → List MemoryRegion → Outcome (List MemoryRegion)
unfolding convert_descriptor
fill_entries idx [] entries = ok entries
fill_entries idx (d ∷ ds) entries = do
  region ← convert_descriptor d
  if ltb idx (length entries) then fill_entries (idx + 1) ds (set entries idx region) else panic

unfoldable pub init_allocator : List MemoryDescriptor → Outcome (FrameAllocator × MemoryMap)
unfolding fill_entries
init_allocator descriptors = do
  entries ← fill_entries 0 descriptors (replicate max_memory_map_size empty_region)
  let mmap : MemoryMap = record { entries = entries; next_free_entry_idx = length descriptors }
  ok (new_allocator mmap 0 0, mmap)
