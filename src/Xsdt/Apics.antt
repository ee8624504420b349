-- ===== src/Xsdt/Apics.antt =====
-- src/xsdt.rs: read_xsdt, from the address of the root pointer to the mapped controllers. Whether
-- the bytes of a signature are text is a parameter.
use ferr_os.Base.{
  ℕ, zero, suc, ◌+◌, ◌/◌, Bool, false, ◌&&◌, List, [], ◌∷◌, ltb, ◌==◌, ◌!=◌, if◌then◌else◌, u64,
  ◌<<◌, Outcome, ok, panic, hang, ◌>>=◌, expect,
}
use ferr_os.Addr.{VirtAddr, PhysAddr, new, new_checked, offset}
use ferr_os.PageTable.{Machine, map_address_with_offset, align_down, align_down_u64}
use ferr_os.FrameAllocator.{FrameAllocator, frame_allocator}
use ferr_os.Memory.{virt_mapping_offset, active_level_4_table}
use ferr_os.Xsdt.{
  Bytes, bytes_from, get_xsdt_address, get_bytes_sum, ApicPhysAddrs, data_length, handle_madt,
  pointers_from, pointers_sum,
}

pub record ApicAddresses : Type 0 where
  pub local_apic_addr : VirtAddr
  pub io_apic_addr : VirtAddr

-- "APIC"
abbrev pub is_madt : List ℕ → Bool
is_madt (a ∷ p ∷ i ∷ c ∷ []) = a == 65 && p == 80 && i == 73 && c == 67
is_madt _ = false

module _ (is_utf8 : List ℕ → Bool) (fuel : ℕ) (bytes : Bytes) where
  -- One table: a MADT sets the addresses.
  unfoldable pub handle_table : ℕ → ApicPhysAddrs → Outcome ApicPhysAddrs
  unfolding handle_madt
  handle_table sdt_ptr addrs =
      let header = u64 (sdt_ptr + virt_mapping_offset) in
      let signature = bytes_from bytes header 4 in
      let found = (do
        data_addr ← expect (new_checked (u64 (u64 (sdt_ptr + virt_mapping_offset) + 36)))
        expect (handle_madt fuel bytes header data_addr)) in
      if is_utf8 signature then if is_madt signature then found else ok addrs else panic

  unfoldable pub handle_tables : List ℕ → ApicPhysAddrs → Outcome ApicPhysAddrs
  unfolding handle_table
  handle_tables [] addrs = ok addrs
  handle_tables (sdt_ptr ∷ sdt_ptrs) addrs = do
    found ← handle_table sdt_ptr addrs
    handle_tables sdt_ptrs found

  -- The tables' part of `read_xsdt`, before anything is mapped.
  unfoldable pub find_apics : ℕ → Outcome ApicPhysAddrs
  unfolding get_xsdt_address get_bytes_sum pointers_sum pointers_from handle_tables
  find_apics rsdp_addr = do
    xsdt ← get_xsdt_address bytes rsdp_addr
    let count = data_length bytes xsdt / 8
    if pointers_sum bytes (xsdt + 36) count (get_bytes_sum bytes xsdt) != 0
        then panic
        else handle_tables (pointers_from bytes (xsdt + 36) count)
            (record { local_apic_addr = 0; io_apic_addr = 0 })

  -- The loop that maps the local APIC's pages, with the number of rounds allowed.
  unfoldable pub map_apic :
      ℕ
      → ℕ
      → VirtAddr
      → VirtAddr
      → PhysAddr
      → Machine FrameAllocator
      → Outcome (Machine FrameAllocator)
  map_apic zero l4_table apic_virt apic_virt_end apic_phys m = hang
  map_apic (suc rounds) l4_table apic_virt apic_virt_end apic_phys m =
      let mapped = (do
        m1 ← expect (
            map_address_with_offset frame_allocator l4_table apic_virt apic_phys virt_mapping_offset
              m)
        next ← expect (offset apic_virt 4096)
        map_apic rounds l4_table next apic_virt_end (u64 (apic_phys + 4096)) m1) in
      if ltb apic_virt apic_virt_end then mapped else ok m

  unfoldable pub read_xsdt :
      ℕ → ℕ → Machine FrameAllocator → Outcome (ApicAddresses × Machine FrameAllocator)
  unfolding find_apics map_apic
  read_xsdt cr3 rsdp_addr m = do
    addrs ← find_apics rsdp_addr
    let apic_virt = new (u64 (addrs.local_apic_addr + virt_mapping_offset))
    let io_apic_phys = u64 (addrs.io_apic_addr << 16)
    let io_apic_virt = new (u64 (io_apic_phys + virt_mapping_offset))
    if addrs.local_apic_addr == 0 then panic else (do
      apic_virt_end ← expect (offset apic_virt 0x10_0000)
      m1 ← map_apic 257 (active_level_4_table cr3) apic_virt apic_virt_end addrs.local_apic_addr m
      m2 ← expect (
          map_address_with_offset frame_allocator (active_level_4_table cr3)
            (align_down io_apic_virt) (align_down_u64 io_apic_phys) virt_mapping_offset m1)
      local_apic_addr ← expect (new_checked (u64 (addrs.local_apic_addr + virt_mapping_offset)))
      ok (record { local_apic_addr = local_apic_addr; io_apic_addr = io_apic_virt }, m2))
