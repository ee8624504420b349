-- ===== src/Bits.antt =====
-- shared_lib/src/bits.rs: setting and reading bits of a 64-bit word. Release arithmetic: a shift
-- count is taken modulo the width.
pub mod Laws
mod Tests
use ferr_os.Base.{
  ℕ, ◌-◌, ◌%◌, ◌^◌, Bool, bit_and, bit_or, u64, ◌<<◌, ◌>>◌, complement, if◌then◌else◌, ◌==◌,
}

-- `1 << n`, as a `u64`.
abbrev pub bit_mask : ℕ → ℕ
bit_mask n = u64 (1 << (n % 64))

pub set_bit : ℕ → ℕ → Bool → ℕ
set_bit num n value =
    if value then bit_or num (bit_mask n) else bit_and num (complement 64 (bit_mask n))

unfoldable pub set_bits : ℕ → ℕ → ℕ → ℕ
set_bits num mask shift = bit_or num (u64 (mask << (shift % 64)))

unfoldable pub get_bits : ℕ → ℕ → ℕ → ℕ
get_bits num start end =
    let cut_first_bits = num >> (start % 64) in
    if end == 64 then cut_first_bits else bit_and cut_first_bits ((2 ^ 64 - 1) >> (end % 64))
