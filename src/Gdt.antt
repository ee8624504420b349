-- ===== src/Gdt.antt =====
-- src/gdt.rs: the task state segment, and the global descriptor table. The addresses of the
-- interrupt stack and of the task state segment are arguments.
pub mod Entries
pub mod Tss
mod Tests
use ferr_os.Base.{
  ℕ, ◌+◌, ◌-◌, ◌*◌, bit_and, bit_or, List, ltb, ◌==◌, if◌then◌else◌, length, set, replicate, u16,
  u64, ◌<<◌, ◌>>◌, Outcome, ok, panic, ◌>>=◌,
}
use ferr_os.Addr.{VirtAddr, new, from_ptr}
use ferr_os.Bits.{get_bits, set_bits}

-- Packed to 4 bytes; the reserved fields are zero.
pub record TaskStateSegment : Type 0 where
  pub privilege_stack_table : List VirtAddr
  pub interrupt_stack_table : List VirtAddr
  pub iomap_base : ℕ

abbrev pub tss_size : ℕ
tss_size = 4 + 3 * 8 + 8 + 7 * 8 + 8 + 2 + 2

unfoldable pub new_tss : TaskStateSegment
new_tss = record {
  privilege_stack_table = replicate 3 0;
  interrupt_stack_table = replicate 7 0;
  iomap_base = u16 tss_size;
}

abbrev pub stack_size : ℕ
stack_size = 4096 * 5

-- The initialiser of `TSS`: the stack of double faults, by the end of its memory.
unfoldable pub tss : ℕ → TaskStateSegment
unfolding new_tss
tss stack =
    let stack_start = from_ptr stack in
    let stack_end = new (u64 (stack_start + stack_size)) in
    record new_tss { interrupt_stack_table = set new_tss.interrupt_stack_table 0 stack_end }

pub data PrivilegeLevel : Type 0 where
  ring0 ring1 ring2 ring3 : PrivilegeLevel

abbrev pub as_u16 : PrivilegeLevel → ℕ
as_u16 ring0 = 0
as_u16 ring1 = 1
as_u16 ring2 = 2
as_u16 ring3 = 3

unfoldable pub from_u16 : ℕ → Outcome PrivilegeLevel
from_u16 value =
    if value == 0
    then ok ring0
    else if value == 1
    then ok ring1
    else if value == 2
    then ok ring2
    else if value == 3
    then ok ring3
    else panic

unfoldable pub new_selector : ℕ → PrivilegeLevel → ℕ
new_selector index rpl = bit_or (u16 (index << 3)) (as_u16 rpl)

pub data Descriptor : Type 0 where
  user_segment : ℕ → Descriptor
  system_segment : ℕ → ℕ → Descriptor

abbrev pub dpl_ring_3 : ℕ
dpl_ring_3 = 3 << 45

abbrev pub value_low : Descriptor → ℕ
value_low (user_segment v) = v
value_low (system_segment v high) = v

unfoldable pub dpl : Descriptor → Outcome PrivilegeLevel
unfolding from_u16
dpl self = from_u16 (u16 (bit_and (value_low self) dpl_ring_3 >> 45))

pub record GlobalDescriptorTable : Type 0 where
  pub table : List ℕ
  pub len : ℕ

abbrev pub new_gdt : GlobalDescriptorTable
new_gdt = record { table = replicate 8 0; len = 1 }

-- The index past the table's end is a panic.
unfoldable pub push : ℕ → GlobalDescriptorTable → Outcome (ℕ × GlobalDescriptorTable)
push value self =
    if ltb self.len (length self.table)
    then ok (self.len, record { table = set self.table self.len value; len = self.len + 1 })
    else panic

unfoldable pub push_entry : Descriptor → GlobalDescriptorTable → Outcome (ℕ × GlobalDescriptorTable)
unfolding push
push_entry (user_segment value) self =
    if ltb (length self.table - 1) self.len then panic else push value self
push_entry (system_segment low high) self =
    if ltb (length self.table - 2) self.len
    then panic
    else (do (index, first) ← push low self; (_, second) ← push high first; ok (index, second))

unfoldable pub add_entry : Descriptor → GlobalDescriptorTable → Outcome (ℕ × GlobalDescriptorTable)
unfolding push_entry dpl new_selector
add_entry entry self = do
  (index, after) ← push_entry entry self
  rpl ← dpl entry
  ok (new_selector (u16 index) rpl, after)

-- The limit of `pointer`.
abbrev pub gdt_limit : GlobalDescriptorTable → ℕ
gdt_limit self = u16 (self.len * 8 - 1)

-- `DescriptorFlags`.
abbrev pub accessed : ℕ
accessed = 1 << 40

abbrev pub segment_writable : ℕ
segment_writable = 1 << 41

abbrev pub executable : ℕ
executable = 1 << 43

abbrev pub user_segment_flag : ℕ
user_segment_flag = 1 << 44

abbrev pub segment_present : ℕ
segment_present = 1 << 47

abbrev pub long_mode : ℕ
long_mode = 1 << 53

abbrev pub default_size : ℕ
default_size = 1 << 54

abbrev pub granularity : ℕ
granularity = 1 << 55

abbrev pub limit_0_15 : ℕ
limit_0_15 = 0xffff

abbrev pub limit_16_19 : ℕ
limit_16_19 = 0xf << 48

abbrev pub kernel_code_segment : Descriptor
kernel_code_segment = user_segment (
    bit_or user_segment_flag (
      bit_or segment_present (
        bit_or segment_writable (
          bit_or accessed (
            bit_or limit_0_15
              (bit_or limit_16_19 (bit_or granularity (bit_or executable long_mode))))))))

abbrev pub kernel_data_segment : Descriptor
kernel_data_segment = user_segment (
    bit_or user_segment_flag (
      bit_or segment_present (
        bit_or segment_writable (
          bit_or accessed
            (bit_or limit_0_15 (bit_or limit_16_19 (bit_or granularity default_size)))))))

unfoldable pub tss_segment_unchecked : ℕ → Descriptor
tss_segment_unchecked ptr =
    let base_low = set_bits segment_present (get_bits ptr 0 24) 16 in
    let base = set_bits base_low (get_bits ptr 24 32) 56 in
    let limit = set_bits base (tss_size - 1) 0 in
    let low = set_bits limit 0b1001 40 in system_segment low (set_bits 0 (get_bits ptr 32 64) 0)

pub record GdtAndSelectors : Type 0 where
  pub gdt : GlobalDescriptorTable
  pub code_selector : ℕ
  pub tss_selector : ℕ
  pub data_selector : ℕ

-- The initialiser of `GDT`.
unfoldable pub gdt_and_selectors : ℕ → Outcome GdtAndSelectors
unfolding add_entry tss_segment_unchecked
gdt_and_selectors tss_ptr = do
  (code, g1) ← add_entry kernel_code_segment new_gdt
  (tss_, g2) ← add_entry (tss_segment_unchecked tss_ptr) g1
  (data_, g3) ← add_entry kernel_data_segment g2
  ok (record { gdt = g3; code_selector = code; tss_selector = tss_; data_selector = data_ })
