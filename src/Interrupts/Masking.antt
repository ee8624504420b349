-- ===== src/Interrupts/Masking.antt =====
-- When `without_interrupts` disables interrupts.
use ferr_os.Base.{
  ℕ, ◌^◌, ◌≤◌, ◌<◌, ◌≡◌, refl, inl, inr, true, false, arith, ◌==◌, ne→not_==, Bool-cases,
}
use ferr_os.Base.Bits.{digit}
use ferr_os.Bits.{get_bits}
use ferr_os.Bits.Laws.{get_bits-eq-mod, set_bit_lem}
use ferr_os.Interrupts.{cli, without_interrupts}

-- Where no flag above the interrupt flag is set: the code runs with interrupts disabled, and the
-- interrupt flag is afterwards as it was, if the code leaves it as it is.
pub without_interrupts_lem :
    {R : Type 0} (f : ℕ → R × ℕ) (rflags : ℕ)
    → rflags < 2 ^ 10
    → ((r : ℕ) → digit (f r).1 9 ≡ digit r 9)
    → (ran : ℕ) × ((without_interrupts f rflags).0 ≡ (f ran).0)
      × (digit ran 9 ≡ 0)
      × (digit (without_interrupts f rflags).1 9 ≡ digit rflags 9)
unfolding without_interrupts digit
without_interrupts_lem f rflags low keeps = elim (Bool-cases (get_bits rflags 9 10 == 1)) [
  | inl enabled ↦
      let on : digit rflags 9 ≡ 1 =
        ground (arith, get_bits-eq-mod rflags 9 10 (omega arith) (omega arith)) in
      (
        cli rflags,
        rw enabled refl,
        set_bit_lem rflags 9 9 false (omega arith) (omega arith),
        rw (enabled, on) (set_bit_lem (f (cli rflags)).1 9 9 true (omega arith) (omega arith)),
      )
  | inr disabled ↦ (
    rflags,
    rw disabled refl,
    ground (arith, get_bits-eq-mod rflags 9 10 (omega arith) (omega arith)),
    rw disabled (keeps rflags),
  )
]

-- Where a flag above the interrupt flag and below bit 63 is set, and bit 63 is clear,
-- without_interrupts runs the code with the flags as they are, even if interrupts are enabled.
pub without_interrupts-enabled :
    {R : Type 0} (f : ℕ → R × ℕ) (rflags : ℕ)
    → 2 ^ 10 ≤ rflags
    → rflags < 2 ^ 63
    → without_interrupts f rflags ≡ f rflags
unfolding without_interrupts
without_interrupts-enabled f rflags above small =
    let n : (get_bits rflags 9 10 == 1) ≡ false =
      ne→not_== _ _
        (λ e. absurd (omega (arith, e, get_bits-eq-mod rflags 9 10 (omega arith) (omega arith)))) in
    rw n refl
