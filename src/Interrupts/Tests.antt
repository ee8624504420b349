-- ===== src/Interrupts/Tests.antt =====
-- The theorems on interrupts at concrete flags and handlers.
use ferr_os.Base.{ℕ, ◌<◌, ◌≡◌, refl, none, some, arith, length, get_elem?, ok}
use ferr_os.Base.Bits.{digit}
use ferr_os.Addr.{new}
use ferr_os.Idt.{missing, InterruptDescriptorTable}
use ferr_os.Interrupts.{without_interrupts, Handlers, idt}
use ferr_os.Interrupts.Masking.{without_interrupts_lem, without_interrupts-enabled}
use ferr_os.Interrupts.Table.{handler_of, address_of, idt_lem}

-- Code that gives the interrupt flag that it runs with.
abbrev observe : ℕ → ℕ × ℕ
observe rflags = (digit rflags 9, rflags)

without_interrupts_example :
    (ran : ℕ) × ((without_interrupts observe 0x202).0 ≡ (observe ran).0)
    × (digit ran 9 ≡ 0)
    × (digit (without_interrupts observe 0x202).1 9 ≡ digit 0x202 9)
without_interrupts_example = without_interrupts_lem observe 0x202 (omega arith) (λ r. refl)

-- The interrupt and the overflow flag are set.
without_interrupts-enabled_test : without_interrupts observe 0xa02 ≡ observe 0xa02
without_interrupts-enabled_test =
    without_interrupts-enabled observe 0xa02 (omega arith) (omega arith)

abbrev handlers : Handlers
handlers = record {
  breakpoint = 0x1000;
  double_fault = 0x2000;
  general_protection_fault = 0x3000;
  timer = 0x4000;
  keyboard = 0x5000;
  spurious = 0x6000;
  page_fault = 0x7000;
}

idt_example :
    (table : InterruptDescriptorTable) × (idt 8 handlers ≡ ok table)
    × (length table ≡ 256)
    × ((address_of table 3 ≡ some (new 0x1000))
        × (address_of table 8 ≡ some (new 0x2000))
        × (address_of table 13 ≡ some (new 0x3000))
        × (address_of table 14 ≡ some (new 0x7000))
        × (address_of table 32 ≡ some (new 0x4000))
        × (address_of table 33 ≡ some (new 0x5000))
        × (address_of table 39 ≡ some (new 0x6000)))
    × ((v : ℕ) → v < 256 → handler_of handlers v ≡ none → get_elem? table v ≡ some missing)
idt_example = idt_lem 8 handlers
