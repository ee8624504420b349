-- ===== src/Idt.antt =====
-- src/idt.rs: entries of the interrupt descriptor table, and the table. The code segment's
-- selector, which the CPU gives, is an argument.
pub mod Handlers
mod Tests
use ferr_os.Base.{
  ℕ, ◌+◌, ◌-◌, ◌*◌, bit_or, List, ltb, leb, ◌==◌, if◌then◌else◌, get_or, set, replicate, u16, u32,
  u64, ◌<<◌, ◌>>◌, Outcome, ok, panic, ◌>>=◌,
}
use ferr_os.Addr.{VirtAddr, new}
use ferr_os.Bits.{get_bits}

-- `EntryOptions` is its `u16`.
abbrev pub EntryOptions : Type 0
EntryOptions = ℕ

abbrev pub minimal : EntryOptions
minimal = 0b1110_0000_0000

unfoldable pub set_present : EntryOptions → EntryOptions
set_present self = bit_or self (u16 (1 << 15))

unfoldable pub set_stack_index : ℕ → EntryOptions → EntryOptions
set_stack_index index self = let mask = u16 (index + 1) in bit_or self (u16 (get_bits mask 0 3))

pub record Entry : Type 0 where
  pub pointer_low : ℕ
  pub gdt_selector : ℕ
  pub options : EntryOptions
  pub pointer_middle : ℕ
  pub pointer_high : ℕ
  pub reserved : ℕ

abbrev pub missing : Entry
missing = record {
  pointer_low = 0;
  gdt_selector = 0;
  options = minimal;
  pointer_middle = 0;
  pointer_high = 0;
  reserved = 0;
}

unfoldable pub set_handler_addr : ℕ → VirtAddr → Entry → Entry
unfolding set_present
set_handler_addr cs addr self = record self {
  pointer_low = u16 addr;
  pointer_middle = u16 (addr >> 16);
  pointer_high = u32 (addr >> 32);
  gdt_selector = cs;
  options = set_present self.options;
}

-- `to_virt_addr` of the handler's address.
unfoldable pub set_handler_fn : ℕ → ℕ → Entry → Entry
unfolding set_handler_addr
set_handler_fn cs handler self = set_handler_addr cs (new handler) self

unfoldable pub handler_addr : Entry → VirtAddr
handler_addr self = new (
    bit_or (bit_or self.pointer_low (u64 (self.pointer_middle << 16)))
      (u64 (self.pointer_high << 32)))

-- The fields in their order: the entry of a vector is at its place.
abbrev pub InterruptDescriptorTable : Type 0
InterruptDescriptorTable = List Entry

abbrev pub new_table : InterruptDescriptorTable
new_table = replicate 256 missing

-- The place of the entry that indexing gives; a panic for the others.
unfoldable pub index : ℕ → Outcome ℕ
index i =
    if leb i 7
    then ok i
    else if i == 9
    then ok i
    else if i == 16
    then ok i
    else if i == 19
    then ok i
    else if i == 20
    then ok i
    else if ltb i 32
    then panic
    else if leb i 255
    then ok i
    else panic

-- A change of an entry, by the function that the caller's method is.
abbrev pub update : ℕ → (Entry → Entry) → InterruptDescriptorTable → InterruptDescriptorTable
update vector change table = set table vector (change (get_or table vector missing))

unfoldable pub update_index :
    ℕ → (Entry → Entry) → InterruptDescriptorTable → Outcome InterruptDescriptorTable
unfolding index
update_index i change table = do vector ← index i; ok (update vector change table)

-- `size_of::<Self>() - 1`, an entry taking 16 bytes.
abbrev pub idt_limit : ℕ
idt_limit = u16 (256 * 16 - 1)
