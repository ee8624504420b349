-- ===== src/PageTable/Entry.antt =====
-- An entry's address and flags, and rounding down to a page.
use ferr_os.Base.{
  ℕ, ◌+◌, ◌*◌, ◌/◌, ◌%◌, ◌^◌, ◌≤◌, ◌<◌, bit_or, ◌≡◌, refl, ap, ◌∙◌, true, false, arith, ◌==◌,
}
use ferr_os.Base.Bits.{and_low, and_field, or_fields, bit_and-IsDigitwise}
use ferr_os.Addr.{new, bitand}
use ferr_os.Addr.Laws.{IsCanonical}
use ferr_os.PageTable.{
  present, writable, all_flags, set_addr, flags, is_present, addr, align_down, align_down_u64,
}

-- The frame numbers that an entry can hold.
abbrev pub IsFrame : ℕ → Type 0
IsFrame a = (a < 2 ^ 52) × (a % 4096 ≡ 0)

pub addr-eq : (e : ℕ) → addr e ≡ e / 4096 % 2 ^ 40 * 4096
unfolding addr
addr-eq e = and_field 40 12 e

flags-mod_two : (e : ℕ) → flags e % 2 ≡ e % 2
unfolding flags
flags-mod_two e = omega (arith, bit_and-IsDigitwise.last_digit e all_flags, and_low 1 (e % 2))

pub is_present-eq : (e : ℕ) → is_present e ≡ (e % 2 == 1)
unfolding is_present
is_present-eq e = ap (λ t. t == 1) (and_low 1 (flags e) ∙ flags-mod_two e)

pub set_addr-eq : (a : ℕ) → a % 4096 ≡ 0 → set_addr a (bit_or present writable) ≡ a + 3
unfolding set_addr
set_addr-eq a h =
    let whole : a ≡ a / 4096 * 2 ^ 12 = omega arith in
    ap (λ t. bit_or t 3) whole ∙ or_fields 12 (a / 4096) 3 (omega arith) ∙ omega arith

pub empty-is_present : is_present 0 ≡ false
unfolding is_present
empty-is_present = refl

-- An entry made for a frame is present and gives the frame back.
pub set_addr_roundtrip :
    (a : ℕ)
    → IsFrame a
    → (addr (set_addr a (bit_or present writable)) ≡ a)
      × (is_present (set_addr a (bit_or present writable)) ≡ true)
set_addr_roundtrip a h =
    let e = set_addr-eq a h.1 in
    (
      omega (arith, e, addr-eq (set_addr a (bit_or present writable))),
      is_present-eq _ ∙ ground (arith, e),
    )

-- `align_down_u64` gives the last page boundary at or below a `u64`.
pub align_down_u64_lem :
    (val : ℕ)
    → val < 2 ^ 64
    → (align_down_u64 val % 4096 ≡ 0)
      × (align_down_u64 val ≤ val)
      × (val < align_down_u64 val + 4096)
unfolding align_down_u64
align_down_u64_lem val h = omega (arith, and_field 52 12 val)

-- On a canonical address `align_down` is `align_down_u64`, and the result is canonical.
pub align_down_lem :
    (val : ℕ)
    → IsCanonical val
    → (align_down val ≡ align_down_u64 val) × IsCanonical (align_down val)
unfolding align_down align_down_u64 bitand new
align_down_lem val h = ground (arith, and_field 52 12 val)
