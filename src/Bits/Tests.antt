-- ===== src/Bits/Tests.antt =====
-- The unit tests of shared_lib/src/bits.rs, and the theorems at concrete inputs.
use ferr_os.Base.{◌-◌, ◌/◌, ◌%◌, ◌^◌, ◌≡◌, refl, ◌≢◌, true, false, arith, ◌==◌, if◌then◌else◌}
use ferr_os.Base.Bits.{digit}
use ferr_os.Bits.{set_bit, set_bits, get_bits}
use ferr_os.Bits.Laws.{set_bit_lem, get_bits-eq-field, get_bits-ne-field}

set_bit_test : set_bit (set_bit 0b1000_0000 4 true) 7 false ≡ 0b0001_0000
unfolding set_bit
set_bit_test = refl

set_bits_test : set_bits 0x8000_0000_0000 0b1001_1010 16 ≡ 0x8000_009a_0000
unfolding set_bits
set_bits_test = refl

get_bits_test :
    (get_bits 0b0010_1000 3 6 ≡ 0b101)
    × (get_bits 0x8000_0000_0000_0000 63 64 ≡ 1)
    × (get_bits 0x3777_0000_0000 32 48 ≡ 0x3777)
    × (get_bits 0x22 0 6 ≡ 0x22)
unfolding get_bits
get_bits_test = (refl, refl, refl, refl)

set_bit-digits_test :
    digit (set_bit 0b1000_0000 4 true) 4 ≡ (if 4 == 4 then (if true then 1 else 0) else digit 128 4)
set_bit-digits_test = set_bit_lem 128 4 4 true (omega arith) (omega arith)

get_bits-eq-field_test : get_bits 0x3777_0000_0000 32 48 ≡ 0x3777_0000_0000 / 2 ^ 32
get_bits-eq-field_test =
    get_bits-eq-field 0x3777_0000_0000 32 48 (omega arith) (omega arith) (omega arith)

get_bits-ne-field_test : get_bits 0x40 3 6 ≢ 0x40 / 2 ^ 3 % 2 ^ (6 - 3)
unfolding digit
get_bits-ne-field_test = get_bits-ne-field 0x40 3 6 (omega arith) (omega arith) (omega arith) refl
