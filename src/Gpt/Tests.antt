-- ===== src/Gpt/Tests.antt =====
-- An array of one block.
use ferr_os.Base.{◌≡◌, refl, none, some, [], ◌∷◌, arith, ◌==◌, if◌then◌else◌, set, replicate}
use ferr_os.Crc.{calculate_crc32}
use ferr_os.Gpt.{Block, check_array, array_checksum, invalid_entries_array_checksum, le_number}
use ferr_os.Gpt.Checksums.{concat, check_array_lem}

abbrev zeros : Block
zeros = replicate 512 0

-- Four entries of 128 bytes.
abbrev header : Block
header = set (set zeros 80 4) 84 128

check_array_example : check_array header (zeros ∷ []) ≡ (
    if array_checksum header == calculate_crc32 (concat (zeros ∷ []))
    then none
    else some invalid_entries_array_checksum)
unfolding le_number
check_array_example = check_array_lem header (zeros ∷ []) (refl, tt) (omega arith)
