-- ===== src/Xsdt.antt =====
-- src/xsdt.rs: finding the interrupt controllers in the ACPI tables. Memory is the parameter
-- `bytes`, the byte at an address. The walk over the records of the MADT runs on fuel: a record
-- of length 0 is read again and again, and hang is more records than the fuel.
pub mod Apics
pub mod Records
pub mod Sums
mod Tests
use ferr_os.Base.{
  ℕ, zero, suc, ◌+◌, ◌-◌, ◌*◌, ◌^◌, List, [], ◌∷◌, ltb, ◌==◌, ◌!=◌, if◌then◌else◌, length, u8, u32,
  u64, Outcome, ok, err, panic, hang, ◌>>=◌, expect,
}
use ferr_os.Addr.{VirtAddr, PhysAddr, new_checked, offset}
use ferr_os.Memory.{virt_mapping_offset}

abbrev pub Bytes : Type 0
Bytes = ℕ → ℕ

-- `count` bytes from an address on.
unfoldable pub bytes_from : Bytes → ℕ → ℕ → List ℕ
bytes_from bytes addr zero = []
bytes_from bytes addr (suc count) = bytes addr ∷ bytes_from bytes (addr + 1) count

-- A little-endian number of `count` bytes.
unfoldable pub number_at : Bytes → ℕ → ℕ → ℕ
number_at bytes addr zero = 0
number_at bytes addr (suc count) = bytes addr + number_at bytes (addr + 1) count * 2 ^ 8

-- The `fold` with `wrapping_add`.
unfoldable pub fold_sum : ℕ → List ℕ → ℕ
fold_sum sum [] = sum
fold_sum sum (b ∷ bs) = fold_sum (u8 (sum + b)) bs

unfoldable pub wrapping_sum : List ℕ → ℕ
unfolding fold_sum
wrapping_sum arr = fold_sum 0 arr

-- The fields of `RsdpV2` by their offsets: signature 0, checksum 8, oemid 9, revision 15,
-- rsdt_address 16, length 20, xsdt_address 24, extended_checksum 32, reserved 33.
unfoldable pub rsdp_v1_sum : Bytes → ℕ → ℕ
unfolding wrapping_sum
rsdp_v1_sum bytes rsdp =
    let s1 = u8 (wrapping_sum (bytes_from bytes rsdp 8) + bytes (rsdp + 8)) in
    let s2 = u8 (s1 + wrapping_sum (bytes_from bytes (rsdp + 9) 6)) in
    u8 (u8 (s2 + bytes (rsdp + 15)) + wrapping_sum (bytes_from bytes (rsdp + 16) 4))

unfoldable pub rsdp_v2_sum : Bytes → ℕ → ℕ
unfolding wrapping_sum
rsdp_v2_sum bytes rsdp =
    let s1 = u8 (
      wrapping_sum (bytes_from bytes (rsdp + 20) 4)
      + wrapping_sum (bytes_from bytes (rsdp + 24) 8)) in
    u8 (u8 (s1 + bytes (rsdp + 32)) + wrapping_sum (bytes_from bytes (rsdp + 33) 3))

unfoldable pub get_xsdt_address : Bytes → PhysAddr → Outcome VirtAddr
unfolding number_at rsdp_v1_sum rsdp_v2_sum
get_xsdt_address bytes rsdp_addr = do
  rsdp ← expect (new_checked (u64 (rsdp_addr + virt_mapping_offset)))
  revision_ptr ← expect (offset rsdp (8 + 1 + 6))
  if bytes revision_ptr != 2
      then panic
      else if rsdp_v1_sum bytes rsdp != 0
      then panic
      else if rsdp_v2_sum bytes rsdp != 0
      then panic
      else expect (new_checked (u64 (number_at bytes (rsdp + 24) 8 + virt_mapping_offset)))

-- The fields of `AcpiSdtHeader` by their offsets: signature 0, length 4, revision 8, checksum 9,
-- oemid 10, oem_table_id 16, oem_revision 24, creator_id 28, creator_revision 32.
unfoldable pub header_length : Bytes → ℕ → ℕ
unfolding number_at
header_length bytes header = number_at bytes (header + 4) 4

unfoldable pub get_bytes_sum : Bytes → ℕ → ℕ
unfolding wrapping_sum
get_bytes_sum bytes header =
    let s1 = wrapping_sum (bytes_from bytes header 4) in
    let s2 = u8 (s1 + wrapping_sum (bytes_from bytes (header + 28) 4)) in
    let s3 = u8 (s2 + wrapping_sum (bytes_from bytes (header + 4) 4)) in
    let s4 = u8 (s3 + wrapping_sum (bytes_from bytes (header + 10) 6)) in
    let s5 = u8 (s4 + bytes (header + 8)) in
    let s6 = u8 (s5 + wrapping_sum (bytes_from bytes (header + 32) 4)) in
    let s7 = u8 (s6 + wrapping_sum (bytes_from bytes (header + 24) 4)) in
    let s8 = u8 (s7 + bytes (header + 9)) in
    u8 (s8 + wrapping_sum (bytes_from bytes (header + 16) 8))

pub record ApicPhysAddrs : Type 0 where
  pub local_apic_addr : PhysAddr
  pub io_apic_addr : PhysAddr

-- `length - 36`, which wraps for a table shorter than its header.
unfoldable pub data_length : Bytes → ℕ → ℕ
data_length bytes header = u32 (header_length bytes header + 2 ^ 32 - 36)

-- Fields of the records by the layout of `repr(C)`: the address of an I/O APIC stands behind two
-- bytes and two of padding.
unfoldable pub madt_loop : Bytes → ℕ → ℕ → ℕ → ℕ → Outcome ApicPhysAddrs → Outcome ApicPhysAddrs
madt_loop bytes data_addr length zero offset result = hang
madt_loop bytes data_addr length (suc fuel) offset result =
    let found : Outcome ApicPhysAddrs = ok (record {
      local_apic_addr = number_at bytes data_addr 4;
      io_apic_addr = number_at bytes (data_addr + offset + 2 + 4) 4;
    }) in
    let rest =
      madt_loop bytes data_addr length fuel (offset + bytes (data_addr + offset + 1))
        (if bytes (data_addr + offset) == 1 then found else result) in
    if ltb offset length then rest else result

unfoldable pub handle_madt : ℕ → Bytes → ℕ → VirtAddr → Outcome ApicPhysAddrs
unfolding get_bytes_sum fold_sum madt_loop
handle_madt fuel bytes header data_addr =
    let check_sum =
      fold_sum (get_bytes_sum bytes header)
        (bytes_from bytes data_addr (data_length bytes header)) in
    if check_sum != 0
    then err "MADT checksum failed"
    else madt_loop bytes data_addr (data_length bytes header) fuel 8 (err "Invalid MADT")

-- The addresses of the other tables.
unfoldable pub pointers_from : Bytes → ℕ → ℕ → List ℕ
pointers_from bytes addr zero = []
pointers_from bytes addr (suc count) = number_at bytes addr 8 ∷ pointers_from bytes (addr + 8) count

-- `+=` over the tables' addresses.
unfoldable pub pointers_sum : Bytes → ℕ → ℕ → ℕ → ℕ
unfolding wrapping_sum
pointers_sum bytes addr zero sum = sum
pointers_sum bytes addr (suc count) sum =
    pointers_sum bytes (addr + 8) count (u8 (sum + wrapping_sum (bytes_from bytes addr 8)))
