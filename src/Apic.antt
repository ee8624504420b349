-- ===== src/Apic.antt =====
-- src/apic.rs: the local and the I/O APIC. Ports, memory-mapped registers, the time stamp counter
-- and the instructions are a parameter.

pub mod Clock
pub mod Setup
pub mod Entry
pub mod Frequency
mod Tests
use ferr_os.Base.{ℕ, ◌+◌, bit_and, bit_or, ◌<<◌, ok}
use ferr_os.Base.Io.{Io, ◌>>=◌, ◌>>◌, modify}

abbrev pub apicid : ℕ
apicid = 0x20

abbrev pub task_prior : ℕ
task_prior = 0x80

abbrev pub eoi : ℕ
eoi = 0xb0

abbrev pub ldr : ℕ
ldr = 0xd0

abbrev pub dfr : ℕ
dfr = 0xe0

abbrev pub spurious : ℕ
spurious = 0xf0

abbrev pub lvt_tmr : ℕ
lvt_tmr = 0x320

abbrev pub lvt_perf : ℕ
lvt_perf = 0x340

abbrev pub lvt_lint0 : ℕ
lvt_lint0 = 0x350

abbrev pub lvt_lint1 : ℕ
lvt_lint1 = 0x360

abbrev pub tmr_init_count : ℕ
tmr_init_count = 0x380

abbrev pub tmr_curr_count : ℕ
tmr_curr_count = 0x390

abbrev pub tmr_div : ℕ
tmr_div = 0x3e0

abbrev pub disable : ℕ
disable = 0x1_0000

abbrev pub sw_enable : ℕ
sw_enable = 0x100

abbrev pub nmi : ℕ
nmi = 4 << 8

abbrev pub tmr_periodic : ℕ
tmr_periodic = 0x2_0000

-- `outb`, `inb`, `rdtsc`, the volatile accesses of a `u32` at an address, and the instructions
-- that enable the APIC, and disable and enable interrupts.
pub record Hardware : Type 1 where
  pub Device : Type 0
  pub outb : Device → ℕ → ℕ → Device
  pub inb : Device → ℕ → ℕ × Device
  pub rdtsc : Device → ℕ × Device
  pub write_u32 : Device → ℕ → ℕ → Device
  pub read_u32 : Device → ℕ → ℕ × Device
  pub enable_apic : Device → Device
  pub cli : Device → Device
  pub sti : Device → Device

abbrev pub Run : Hardware → Type 0 → Type 0
Run hw = Io (hw.Device)

module _ (hw : Hardware) where
  abbrev pub get_tsc : Run hw ℕ
  get_tsc d = ok (hw.rdtsc d)

  abbrev pub read_port : ℕ → Run hw ℕ
  read_port port d = ok (hw.inb d port)

  abbrev pub write_port : ℕ → ℕ → Run hw (Unit {0})
  write_port port value = modify λ d. hw.outb d port value

  -- `read_u32_ptr` and `write_u32_ptr`, which are `apic_read` and `apic_write` at the APIC's base.
  abbrev pub read_u32_ptr : ℕ → ℕ → Run hw ℕ
  read_u32_ptr ptr offset d = ok (hw.read_u32 d (ptr + offset))

  abbrev pub write_u32_ptr : ℕ → ℕ → ℕ → Run hw (Unit {0})
  write_u32_ptr ptr offset value = modify λ d. hw.write_u32 d (ptr + offset) value

  unfoldable pub initialize : ℕ → Run hw (Unit {0})
  initialize base = do
    write_u32_ptr base dfr 0xffff_ffff
    old ← read_u32_ptr base ldr
    write_u32_ptr base ldr (bit_or (bit_and old 0x00ff_ffff) 1)
    write_u32_ptr base lvt_tmr disable
    write_u32_ptr base lvt_perf nmi
    write_u32_ptr base lvt_lint0 disable
    write_u32_ptr base lvt_lint1 disable
    write_u32_ptr base task_prior 0

  unfoldable pub notify_end_of_interrupt : ℕ → Run hw (Unit {0})
  notify_end_of_interrupt base = write_u32_ptr base eoi 0

  unfoldable pub disable_pic : Run hw (Unit {0})
  disable_pic = do write_port 0x21 0xff; write_port 0xa1 0xff

  unfoldable pub read_io_apic : ℕ → ℕ → Run hw ℕ
  read_io_apic io_apic register = do
    write_u32_ptr io_apic 0 (bit_and register 0xff)
    read_u32_ptr io_apic 0x10

  unfoldable pub write_io_apic : ℕ → ℕ → ℕ → Run hw (Unit {0})
  write_io_apic io_apic register value = do
    write_u32_ptr io_apic 0 (bit_and register 0xff)
    write_u32_ptr io_apic 0x10 value
