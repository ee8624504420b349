-- ===== src/Apic/Entry.antt =====
-- src/apic.rs: the keyboard's redirection entry, bit by bit.
use ferr_os.Base.{
  ℕ, ◌<◌, bit_or, ◌≡◌, refl, ap, ◌∙◌, ◌⊎◌, inl, inr, Bool, true, false, ◌||◌, arith, ◌==◌,
  if◌then◌else◌, ==_iff, all_below, all_below_sound,
}
use ferr_os.Base.Bits.{digit, digit-op, digit-cases, bit_or-IsDigitwise, or-zero}
use ferr_os.Bits.{set_bit, set_bits}
use ferr_os.Bits.Laws.{set_bit_lem}
use ferr_os.Apic.Setup.{redirection}

-- Bits 0 and 5, which are those of the keyboard's vector, are set; bits 11, 13, 15 and 16 are
-- clear.
unfoldable pub entry_bit : ℕ → ℕ → ℕ
entry_bit k old =
    if 16 == k
    then 0
    else if 15 == k
    then 0
    else if 13 == k
    then 0
    else if 11 == k
    then 0
    else if (k == 0) || (k == 5)
    then 1
    else old

vector_bits : all_below 64 (λ k. digit 33 k == (if (k == 0) || (k == 5) then 1 else 0)) ≡ true
unfolding digit all_below
vector_bits = refl

vector_bit : (k : ℕ) → k < 64 → digit 33 k ≡ (if (k == 0) || (k == 5) then 1 else 0)
vector_bit k below = (==_iff _ _).0 (
    all_below_sound 64 (λ j. digit 33 j == (if (j == 0) || (j == 5) then 1 else 0)) k vector_bits
      below)

with_vector :
    (b : Bool) (old : ℕ)
    → (old ≡ 0) ⊎ (old ≡ 1)
    → bit_or old (if b then 1 else 0) ≡ (if b then 1 else old)
with_vector true old (inl e) = rw e refl
with_vector true old (inr e) = rw e refl
with_vector false old e = or-zero old

vector_lem :
    (low k : ℕ)
    → k < 64
    → digit (set_bits (set_bits low 33 0) 0 8) k ≡ (if (k == 0) || (k == 5) then 1 else digit low k)
unfolding set_bits
vector_lem low k below =
    ap (λ x. digit x k) (or-zero (bit_or low 33))
    ∙ digit-op bit_or-IsDigitwise k low 33
    ∙ ap (bit_or (digit low k)) (vector_bit k below)
    ∙ with_vector ((k == 0) || (k == 5)) (digit low k) (digit-cases low k)

-- The keyboard's redirection entry has bits 0 and 5 set and bits 11, 13, 15 and 16 clear; each
-- other of its 64 bits is as it was in the register.
pub redirection_lem : (low k : ℕ) → k < 64 → digit (redirection low) k ≡ entry_bit k (digit low k)
unfolding redirection entry_bit
redirection_lem low k below =
    rw
      (
        set_bit_lem
            (set_bit (set_bit (set_bit (set_bits (set_bits low 33 0) 0 8) 11 false) 13 false) 15
              false)
            16 k false (omega arith) below,
        set_bit_lem (set_bit (set_bit (set_bits (set_bits low 33 0) 0 8) 11 false) 13 false) 15 k
            false (omega arith) below,
        set_bit_lem (set_bit (set_bits (set_bits low 33 0) 0 8) 11 false) 13 k false (omega arith)
            below,
        set_bit_lem (set_bits (set_bits low 33 0) 0 8) 11 k false (omega arith) below,
        vector_lem low k below,
      )
      refl
