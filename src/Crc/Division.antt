-- ===== src/Crc/Division.antt =====
-- The table gives the checksum of a division bit by bit.
use ferr_os.Base.{complement}
use ferr_os.Crc.{calculate_crc32}
use ferr_os.Base.{
  ℕ, zero, suc, ◌*◌, ◌/◌, ◌%◌, ◌^◌, ◌<◌, bit_and, bit_xor, ◌≡◌, refl, sym, ap, ◌∙◌, true, List, [],
  ◌∷◌, ◌++◌, arith, ◌==◌, if◌then◌else◌, ==_iff, all_below, all_below_sound, get_or, All,
}
use ferr_os.Base.Bits.{
  bit_xor-IsDigitwise, op_split, xor_comm, xor_assoc, xor_self, zero-xor, and_low, op-lt,
}
use ferr_os.Crc.{
  polynomial, table_entry, table_from, crc32_table, crc_step, calculate_crc32_partial, crc_loop,
}

-- One bit of the division: a shift, and the polynomial where the bit shifted out is set.
abbrev pub divide_bit : ℕ → ℕ
divide_bit crc = if crc % 2 == 1 then bit_xor (crc / 2) polynomial else crc / 2

unfoldable pub divide : ℕ → ℕ → ℕ
divide zero crc = crc
divide (suc bits) crc = divide bits (divide_bit crc)

-- The checksum without a table.
unfoldable pub bitwise_crc : List ℕ → ℕ → ℕ
bitwise_crc [] crc = crc
bitwise_crc (byte ∷ input) crc = bitwise_crc input (divide 8 (bit_xor byte crc))

halves :
    (a b : ℕ)
    → (bit_xor a b / 2 ≡ bit_xor (a / 2) (b / 2)) × (bit_xor a b % 2 ≡ bit_xor (a % 2) (b % 2))
halves a b =
    let split = op_split bit_xor-IsDigitwise 1 a b in
    let small = bit_xor-IsDigitwise.digit_lt a b in (omega arith, omega arith)

twice : (a b p : ℕ) → bit_xor a b ≡ bit_xor (bit_xor a p) (bit_xor b p)
twice a b p =
    let moved : bit_xor p (bit_xor b p) ≡ b =
      ap (bit_xor p) (xor_comm b p)
      ∙ sym (xor_assoc p p b)
      ∙ ap (λ t. bit_xor t b) (xor_self p)
      ∙ zero-xor b in
    sym (xor_assoc a p (bit_xor b p) ∙ ap (bit_xor a) moved)

divide_bit-xor : (a b : ℕ) → divide_bit (bit_xor a b) ≡ bit_xor (divide_bit a) (divide_bit b)
divide_bit-xor a b =
    rw ((halves a b).0, (halves a b).1) (cases (a % 2) (b % 2) (omega arith) (omega arith))
  where
    cases :
        (d e : ℕ)
        → d < 2
        → e < 2
        → (if bit_xor d e == 1
            then bit_xor (bit_xor (a / 2) (b / 2)) polynomial
            else bit_xor (a / 2) (b / 2))
          ≡ bit_xor
              (if d == 1 then bit_xor (a / 2) polynomial else a / 2)
              (if e == 1 then bit_xor (b / 2) polynomial else b / 2)
    cases zero zero p q = refl
    cases zero (suc zero) p q = xor_assoc (a / 2) (b / 2) polynomial
    cases (suc zero) zero p q =
        xor_assoc (a / 2) (b / 2) polynomial
        ∙ ap (bit_xor (a / 2)) (xor_comm (b / 2) polynomial)
        ∙ sym (xor_assoc (a / 2) polynomial (b / 2))
    cases (suc zero) (suc zero) p q = twice (a / 2) (b / 2) polynomial
    cases (suc (suc d)) e p q = absurd (omega arith)
    cases zero (suc (suc e)) p q = absurd (omega arith)
    cases (suc zero) (suc (suc e)) p q = absurd (omega arith)

divide-xor : (bits a b : ℕ) → divide bits (bit_xor a b) ≡ bit_xor (divide bits a) (divide bits b)
unfolding divide
divide-xor zero a b = refl
divide-xor (suc bits) a b =
    ap (divide bits) (divide_bit-xor a b) ∙ divide-xor bits (divide_bit a) (divide_bit b)

divide-even : (bits c d : ℕ) → c ≡ 2 * d → divide (suc bits) c ≡ divide bits d
unfolding divide
divide-even bits c d e = ap (divide bits) (even c d e)
  where
    even : (c d : ℕ) → c ≡ 2 * d → divide_bit c ≡ d
    even c d e = let last : c % 2 ≡ 0 = omega arith in rw last (omega arith)

divide-shift : (h : ℕ) → divide 8 (h * 256) ≡ h
unfolding divide
divide-shift h =
    divide-even 7 (h * 256) (h * 128) (omega arith)
    ∙ divide-even 6 (h * 128) (h * 64) (omega arith)
    ∙ divide-even 5 (h * 64) (h * 32) (omega arith)
    ∙ divide-even 4 (h * 32) (h * 16) (omega arith)
    ∙ divide-even 3 (h * 16) (h * 8) (omega arith)
    ∙ divide-even 2 (h * 8) (h * 4) (omega arith)
    ∙ divide-even 1 (h * 4) (h * 2) (omega arith)
    ∙ divide-even 0 (h * 2) h (omega arith)

entries : (i : ℕ) → i < 256 → (get_or crc32_table i 0 == divide 8 i) ≡ true
unfolding all_below crc32_table table_from table_entry divide
entries i h = all_below_sound 256 (λ i. get_or crc32_table i 0 == divide 8 i) i refl h

-- A number is its low byte and the rest.
fields : (x : ℕ) → bit_xor (x / 256 * 256) (x % 256) ≡ x
fields x =
    let split = op_split bit_xor-IsDigitwise 8 (x / 256 * 256) (x % 256) in
    let high : x / 256 * 256 / 2 ^ 8 ≡ x / 256 = omega arith in
    let high_low : x / 256 * 256 % 2 ^ 8 ≡ 0 = omega arith in
    let low_high : x % 256 / 2 ^ 8 ≡ 0 = omega arith in
    let low : x % 256 % 2 ^ 8 ≡ x % 256 = omega arith in
    split
    ∙ rw
        (
          high,
          high_low,
          low_high,
          low,
          xor_comm (x / 256) 0,
          zero-xor (x / 256),
          zero-xor (x % 256),
        )
        (omega arith)

-- The high part of the sum of a byte and a number is that of the number.
high_part : (byte crc : ℕ) → byte < 256 → bit_xor byte crc / 256 ≡ crc / 256
high_part byte crc h =
    let split = op_split bit_xor-IsDigitwise 8 byte crc in
    let none_ : byte / 2 ^ 8 ≡ 0 = omega arith in
    let z : bit_xor (byte / 2 ^ 8) (crc / 2 ^ 8) ≡ crc / 2 ^ 8 =
      rw none_ (zero-xor (crc / 2 ^ 8)) in
    let low =
      op-lt bit_xor-IsDigitwise 8 (byte % 2 ^ 8) (crc % 2 ^ 8) (omega arith) (omega arith) in
    omega arith

crc_step-divide : (byte crc : ℕ) → byte < 256 → crc_step byte crc ≡ divide 8 (bit_xor byte crc)
unfolding crc_step
crc_step-divide byte crc h =
    let x = bit_xor byte crc in
    let entry : get_or crc32_table (bit_and x 0xff) 0 ≡ divide 8 (x % 256) =
      ap (λ i. get_or crc32_table i 0) (and_low 8 x)
      ∙ (==_iff _ _).0 (entries (x % 256) (omega arith)) in
    let parts : divide 8 x ≡ bit_xor (crc / 256) (divide 8 (x % 256)) =
      ap (divide 8) (sym (fields x))
      ∙ divide-xor 8 (x / 256 * 256) (x % 256)
      ∙ ap (λ t. bit_xor t (divide 8 (x % 256))) (divide-shift (x / 256) ∙ high_part byte crc h) in
    ap (bit_xor (crc / 256)) entry ∙ sym parts

-- On bytes, the table-driven checksum is the one computed bit by bit.
pub calculate_crc32_partial-eq :
    (input : List ℕ) (crc : ℕ)
    → All (λ byte. byte < 256) input
    → calculate_crc32_partial input crc ≡ bitwise_crc input crc
unfolding calculate_crc32_partial bitwise_crc
calculate_crc32_partial-eq [] crc _ = refl
calculate_crc32_partial-eq (byte ∷ input) crc (h, hs) =
    ap (calculate_crc32_partial input) (crc_step-divide byte crc h)
    ∙ calculate_crc32_partial-eq input (divide 8 (bit_xor byte crc)) hs

pub crc_loop-partial :
    (input : List ℕ) (crc : ℕ) → crc_loop input crc ≡ calculate_crc32_partial input crc
unfolding crc_loop calculate_crc32_partial
crc_loop-partial [] crc = refl
crc_loop-partial (byte ∷ input) crc = crc_loop-partial input (crc_step byte crc)

pub partial-append :
    (xs ys : List ℕ) (crc : ℕ)
    → calculate_crc32_partial (xs ++ ys) crc
      ≡ calculate_crc32_partial ys (calculate_crc32_partial xs crc)
unfolding calculate_crc32_partial
partial-append [] ys crc = refl
partial-append (x ∷ xs) ys crc = partial-append xs ys (crc_step x crc)

-- The checksum of bytes is the complement of the division bit by bit, started at all ones.
pub calculate_crc32-eq :
    (input : List ℕ)
    → All (λ byte. byte < 256) input
    → calculate_crc32 input ≡ complement 32 (bitwise_crc input 0xffff_ffff)
unfolding calculate_crc32
calculate_crc32-eq input bytes =
    ap (complement 32)
      (crc_loop-partial input 0xffff_ffff ∙ calculate_crc32_partial-eq input 0xffff_ffff bytes)
