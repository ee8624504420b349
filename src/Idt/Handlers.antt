-- ===== src/Idt/Handlers.antt =====
-- An entry keeps its handler's address.
use ferr_os.Base.{
  ℕ, ◌+◌, ◌*◌, ◌/◌, ◌%◌, ◌^◌, ◌<◌, bit_or, ◌≡◌, refl, ap, ap₂, ◌∙◌, inl, inr, arith, u64, ◌<<◌,
}
use ferr_os.Addr.{new}
use ferr_os.Addr.Laws.{IsCanonical, new-IsCanonical}
use ferr_os.Idt.{Entry, set_present, set_handler_addr, handler_addr}
use ferr_os.Base.Bits.{or_high, digit, digit-op, digit-cases, bit_or-IsDigitwise}

-- Three fields of 16, 16 and 32 digits.
joined :
    (low middle high : ℕ)
    → low < 2 ^ 16
    → middle < 2 ^ 16
    → high < 2 ^ 32
    → bit_or (bit_or low (u64 (middle << 16))) (u64 (high << 32))
      ≡ high * 2 ^ 32 + (middle * 2 ^ 16 + low)
joined low middle high hl hm hh =
    let m : u64 (middle << 16) ≡ middle * 2 ^ 16 = omega arith in
    let h : u64 (high << 32) ≡ high * 2 ^ 32 = omega arith in
    ap₂ bit_or (ap (bit_or low) m ∙ or_high 16 low middle (omega arith) hl) h
    ∙ or_high 32 (middle * 2 ^ 16 + low) high (omega arith) (omega arith)

set_digit : digit 0x8000 15 ≡ 1
unfolding digit
set_digit = refl

present_bit : (options : ℕ) → digit (set_present options) 15 ≡ 1
unfolding set_present
present_bit options =
    digit-op bit_or-IsDigitwise 15 options 0x8000
    ∙ rw set_digit (elim (digit-cases options 15) [ inl p ↦ rw p refl | inr p ↦ rw p refl ])

-- An entry gives back the canonical address of the handler that it was given, with the segment, and
-- it is present.
pub set_handler_addr_roundtrip :
    (cs addr : ℕ) (self : Entry)
    → IsCanonical addr
    → (handler_addr (set_handler_addr cs addr self) ≡ addr)
      × ((set_handler_addr cs addr self).gdt_selector ≡ cs)
      × (digit (set_handler_addr cs addr self).options 15 ≡ 1)
unfolding set_handler_addr handler_addr
set_handler_addr_roundtrip cs addr self h = (
  ap new (
        joined (addr % 2 ^ 16) (addr / 2 ^ 16 % 2 ^ 16) (addr / 2 ^ 32 % 2 ^ 32) (omega arith)
          (omega arith) (omega arith)
        ∙ omega arith)
      ∙ (new-IsCanonical addr).2 h,
  refl,
  present_bit self.options,
)
