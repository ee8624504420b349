-- ===== src/Crc/Tests.antt =====
-- The unit test of shared_lib/src/crc.rs, and the theorems at its inputs.
use ferr_os.Base.{complement}
use ferr_os.Base.{ℕ, ◌≡◌, refl, List, [], ◌∷◌}
use ferr_os.Base.{arith}
use ferr_os.Crc.Division.{bitwise_crc, calculate_crc32_partial-eq, calculate_crc32-eq}
use ferr_os.Crc.{
  calculate_crc32_partial, calculate_crc32, crc_loop, crc_step, crc32_table, table_from,
  table_entry,
}

abbrev digits_123456789 : List ℕ
digits_123456789 = 49 ∷ 50 ∷ 51 ∷ 52 ∷ 53 ∷ 54 ∷ 55 ∷ 56 ∷ 57 ∷ []

simple_crc32_test : calculate_crc32 digits_123456789 ≡ 0xcbf4_3926
unfolding calculate_crc32 crc_loop crc_step crc32_table table_from table_entry
simple_crc32_test = refl

calculate_crc32_partial_example :
    calculate_crc32_partial digits_123456789 0xffff_ffff ≡ bitwise_crc digits_123456789 0xffff_ffff
calculate_crc32_partial_example =
    calculate_crc32_partial-eq digits_123456789 0xffff_ffff (omega arith)

calculate_crc32-eq_example :
    calculate_crc32 digits_123456789 ≡ complement 32 (bitwise_crc digits_123456789 0xffff_ffff)
calculate_crc32-eq_example = calculate_crc32-eq digits_123456789 (omega arith)
