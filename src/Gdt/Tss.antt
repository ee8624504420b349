-- ===== src/Gdt/Tss.antt =====
-- The descriptor of the task state segment, field by field.
use ferr_os.Base.{ℕ, ◌+◌, ◌*◌, ◌/◌, ◌%◌, ◌^◌, ◌<◌, bit_or, ◌≡◌, refl, ap, ap₂, ◌∙◌, arith, u64}
use native.Mathlib.Nat.{one-le-pow}
use ferr_os.Base.Bits.{op_split, bit_or-IsDigitwise, or-zero, zero-or, op-lt}
use ferr_os.Bits.{get_bits, set_bits}
use ferr_os.Bits.Laws.{get_bits-eq-mod}
use ferr_os.Gdt.{value_low, tss_segment_unchecked, segment_present}

split_div : (d q r x : ℕ) → r < d → x ≡ q * d + r → (x / d ≡ q) × (x % d ≡ r)
split_div d q r x h e = (grind arith, grind arith)

or_parts :
    (k a b : ℕ)
    → (bit_or a b / 2 ^ k ≡ bit_or (a / 2 ^ k) (b / 2 ^ k))
      × (bit_or a b % 2 ^ k ≡ bit_or (a % 2 ^ k) (b % 2 ^ k))
or_parts k a b =
    split_div (2 ^ k) (bit_or (a / 2 ^ k) (b / 2 ^ k)) (bit_or (a % 2 ^ k) (b % 2 ^ k)) (bit_or a b)
      (op-lt bit_or-IsDigitwise k (a % 2 ^ k) (b % 2 ^ k) (grind (arith, one-le-pow k 2))
        (grind (arith, one-le-pow k 2)))
      (op_split bit_or-IsDigitwise k a b)

-- A field of a sum is the sum of the fields.
or_field :
    (k n a b : ℕ) → bit_or a b / 2 ^ k % 2 ^ n ≡ bit_or (a / 2 ^ k % 2 ^ n) (b / 2 ^ k % 2 ^ n)
or_field k n a b = ap (λ t. t % 2 ^ n) (or_parts k a b).0 ∙ (or_parts n (a / 2 ^ k) (b / 2 ^ k)).1

-- The lower half of the descriptor, by what each step adds.
abbrev parts : ℕ → ℕ
parts ptr =
    bit_or
      (bit_or
        (bit_or (bit_or segment_present (u64 (ptr % 2 ^ 40 * 2 ^ 16)))
          (u64 (ptr / 2 ^ 24 % 2 ^ 32 * 2 ^ 56)))
        103)
      (9 * 2 ^ 40)

low-parts : (ptr : ℕ) → value_low (tss_segment_unchecked ptr) ≡ parts ptr
unfolding tss_segment_unchecked set_bits
low-parts ptr =
    let a : get_bits ptr 0 24 ≡ ptr % 2 ^ 40 =
      get_bits-eq-mod ptr 0 24 (omega arith) (omega arith) ∙ omega arith in
    let b : get_bits ptr 24 32 ≡ ptr / 2 ^ 24 % 2 ^ 32 =
      get_bits-eq-mod ptr 24 32 (omega arith) (omega arith) in
    rw (a, b) refl

-- One field of that.
field :
    (k n ptr a b p l t : ℕ)
    → segment_present / 2 ^ k % 2 ^ n ≡ p
    → u64 (ptr % 2 ^ 40 * 2 ^ 16) / 2 ^ k % 2 ^ n ≡ a
    → u64 (ptr / 2 ^ 24 % 2 ^ 32 * 2 ^ 56) / 2 ^ k % 2 ^ n ≡ b
    → 103 / 2 ^ k % 2 ^ n ≡ l
    → 9 * 2 ^ 40 / 2 ^ k % 2 ^ n ≡ t
    → value_low (tss_segment_unchecked ptr) / 2 ^ k % 2 ^ n
      ≡ bit_or (bit_or (bit_or (bit_or p a) b) l) t
field k n ptr a b p l t hp ha hb hl ht =
    ap (λ x. x / 2 ^ k % 2 ^ n) (low-parts ptr)
    ∙ or_field k n _ _
    ∙ ap₂ bit_or
        (or_field k n _ _
          ∙ ap₂ bit_or (or_field k n _ _ ∙ ap₂ bit_or (or_field k n _ _ ∙ ap₂ bit_or hp ha) hb) hl)
        ht

second : (x t : ℕ) → bit_or (bit_or (bit_or (bit_or 0 x) 0) 0) t ≡ bit_or x t
second x t = ap (λ y. bit_or y t) (or-zero _ ∙ or-zero _ ∙ zero-or x)

third : (x : ℕ) → bit_or (bit_or (bit_or 0 x) 0) 0 ≡ x
third x = or-zero _ ∙ or-zero _ ∙ zero-or x

-- The descriptor of a task state segment at a 64-bit address has the segment's limit and the low
-- 32 bits of its base. Its type is the union of the type of an available segment and of bits 24
-- to 27 of the address, and its privilege level is bits 29 and 30 of the address.
pub tss_segment_lem :
    (ptr : ℕ)
    → ptr < 2 ^ 64
    → (value_low (tss_segment_unchecked ptr) / 2 ^ 0 % 2 ^ 16 ≡ 103)
      × (value_low (tss_segment_unchecked ptr) / 2 ^ 16 % 2 ^ 24 ≡ ptr % 2 ^ 24)
      × (value_low (tss_segment_unchecked ptr) / 2 ^ 56 % 2 ^ 8 ≡ ptr / 2 ^ 24 % 2 ^ 8)
      × (value_low (tss_segment_unchecked ptr) / 2 ^ 40 % 2 ^ 4 ≡ bit_or (ptr / 2 ^ 24 % 2 ^ 4) 9)
      × (value_low (tss_segment_unchecked ptr) / 2 ^ 45 % 2 ^ 2 ≡ ptr / 2 ^ 29 % 2 ^ 2)
tss_segment_lem ptr h = (
  field 0 16 ptr 0 0 0 103 0 refl (omega arith) (omega arith) refl refl,
  field 16 24 ptr (ptr % 2 ^ 24) 0 0 0 0 refl (omega arith) (omega arith) refl refl
      ∙ second _ 0
      ∙ or-zero _,
  field 56 8 ptr 0 (ptr / 2 ^ 24 % 2 ^ 8) 0 0 0 refl (omega arith) (omega arith) refl refl
      ∙ third _,
  field 40 4 ptr (ptr / 2 ^ 24 % 2 ^ 4) 0 0 0 9 refl (omega arith) (omega arith) refl refl
      ∙ second _ 9,
  field 45 2 ptr (ptr / 2 ^ 29 % 2 ^ 2) 0 0 0 0 refl (omega arith) (omega arith) refl refl
      ∙ second _ 0
      ∙ or-zero _,
)
