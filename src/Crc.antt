-- ===== src/Crc.antt =====
-- shared_lib/src/crc.rs: the CRC-32 checksum by a table of 256 remainders.
pub mod Division
mod Tests
use ferr_os.Base.{
  ℕ, zero, suc, ◌+◌, bit_and, bit_xor, List, [], ◌∷◌, ◌!=◌, if◌then◌else◌, get_or, ◌>>◌, complement,
}

abbrev pub polynomial : ℕ
polynomial = 0xedb8_8320

-- The inner loop of the table's construction: the rounds left, `ch` and `crc`.
unfoldable pub table_entry : ℕ → ℕ → ℕ → ℕ
table_entry zero ch crc = crc
table_entry (suc rounds) ch crc =
    let b = bit_and (bit_xor ch crc) 1 in
    let shifted = crc >> 1 in
    table_entry rounds (ch >> 1) (if b != 0 then bit_xor shifted polynomial else shifted)

-- The outer loop, from an index on.
unfoldable pub table_from : ℕ → ℕ → List ℕ
unfolding table_entry
table_from zero i = []
table_from (suc rounds) i = table_entry 8 i 0 ∷ table_from rounds (i + 1)

unfoldable pub crc32_table : List ℕ
unfolding table_from
crc32_table = table_from 256 0

-- One byte of the loop. The index is below 256.
unfoldable pub crc_step : ℕ → ℕ → ℕ
unfolding crc32_table
crc_step byte crc =
    let idx = bit_and (bit_xor byte crc) 0xff in bit_xor (crc >> 8) (get_or crc32_table idx 0)

unfoldable pub calculate_crc32_partial : List ℕ → ℕ → ℕ
calculate_crc32_partial [] crc = crc
calculate_crc32_partial (byte ∷ input) crc = calculate_crc32_partial input (crc_step byte crc)

unfoldable pub crc_loop : List ℕ → ℕ → ℕ
crc_loop [] crc = crc
crc_loop (byte ∷ input) crc = crc_loop input (crc_step byte crc)

unfoldable pub calculate_crc32 : List ℕ → ℕ
calculate_crc32 input = complement 32 (crc_loop input 0xffff_ffff)
