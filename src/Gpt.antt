-- ===== src/Gpt.antt =====
-- src/gpt.rs: checking a disk's partition table. A block is its 512 bytes; reading blocks is an
-- argument. The last loop, which logs the entries, is not modelled. A header size above 512 reads
-- the bytes that lie behind the block in memory, which are an argument.
pub mod Checksums
mod Tests
use ferr_os.Base.{
  ℕ, zero, suc, ◌+◌, ◌-◌, ◌*◌, ◌/◌, min, Bool, true, false, Option, none, some, List, [], ◌∷◌, ◌++◌,
  ltb, ◌==◌, ◌!=◌, if◌then◌else◌, set, take, drop, u8, u32, complement, Outcome, ok, panic, ◌>>=◌,
  expect,
}
use ferr_os.Crc.{calculate_crc32, calculate_crc32_partial}

pub data GptError : Type 0 where
  invalid_protective_mbr : GptError
  invalid_partition_table_header : GptError
  invalid_table_header_checksum : GptError
  invalid_my_lba_header : GptError
  invalid_entries_array_checksum : GptError

abbrev pub Block : Type 0
Block = List ℕ

-- The number in the bytes from a place on, the lowest first.
unfoldable pub le_number : ℕ → List ℕ → ℕ
le_number zero bytes = 0
le_number (suc n) [] = 0
le_number (suc n) (b ∷ bytes) = b + 256 * le_number n bytes

abbrev pub le_at : ℕ → ℕ → Block → ℕ
le_at size offset block = le_number size (drop offset block)

-- Whether the bytes from a place on are the ones given.
unfoldable pub starts_with : List ℕ → List ℕ → Bool
starts_with [] bytes = true
starts_with (e ∷ expected) [] = false
starts_with (e ∷ expected) (b ∷ bytes) =
    let rest = starts_with expected bytes in if e == b then rest else false

abbrev pub efi_part : List ℕ
efi_part = 0x45 ∷ 0x46 ∷ 0x49 ∷ 0x20 ∷ 0x50 ∷ 0x41 ∷ 0x52 ∷ 0x54 ∷ []

-- The fields of `PartitionTableHeader` that are used.
abbrev pub header_size : Block → ℕ
header_size = le_at 4 12

abbrev pub header_checksum : Block → ℕ
header_checksum = le_at 4 16

abbrev pub this_header_lba : Block → ℕ
this_header_lba = le_at 8 24

abbrev pub starting_lba_of_array : Block → ℕ
starting_lba_of_array = le_at 8 72

abbrev pub entries_num : Block → ℕ
entries_num = le_at 4 80

abbrev pub entry_size : Block → ℕ
entry_size = le_at 4 84

abbrev pub array_checksum : Block → ℕ
array_checksum = le_at 4 88

-- `header_checksum = 0` in the block.
abbrev pub clear_checksum : Block → Block
clear_checksum block = set (set (set (set block 16 0) 17 0) 18 0) 19 0

abbrev pub is_protective_mbr : Block → Bool
is_protective_mbr lba0 =
    if starts_with (0x55 ∷ 0xaa ∷ []) (drop 510 lba0)
    then if le_at 1 446 lba0 != 0
      then false
      else if starts_with (0 ∷ 2 ∷ 0 ∷ []) (drop 447 lba0)
      then if le_at 1 450 lba0 != 0xee then false else le_at 4 454 lba0 == 1
      else false
    else false

-- The loop over the blocks of the array: the checksum and the bytes that remain.
unfoldable pub entries_loop : List Block → ℕ → ℕ → ℕ
entries_loop [] checksum remain = checksum
entries_loop (block ∷ blocks) checksum remain =
    entries_loop blocks (calculate_crc32_partial (take (min remain 512) block) checksum)
      (if ltb 512 remain then remain - 512 else remain)

abbrev pub array_size : Block → ℕ
array_size lba1 = u32 (entries_num lba1 * entry_size lba1)

-- The outcome's value is the `Result`: no error is none.
unfoldable pub check_array : Block → List Block → Option GptError
unfolding entries_loop
check_array lba1 blocks =
    if array_checksum lba1 != complement 32 (entries_loop blocks 0xffff_ffff (array_size lba1))
    then some invalid_entries_array_checksum
    else none

-- The first block of a read; a failed read and an empty one are panics.
abbrev pub first_block : Outcome (List Block) → Outcome Block
first_block (ok (block ∷ blocks)) = ok block
first_block _ = panic

unfoldable pub parse_gpt : (ℕ → ℕ → Outcome (List Block)) → List ℕ → Outcome (Option GptError)
unfolding check_array
parse_gpt read behind = do
  lba0 ← first_block (read 0 1)
  if is_protective_mbr lba0
      then (do
        lba1 ← first_block (read 1 1)
        if starts_with efi_part lba1
            then if calculate_crc32 (take (header_size lba1) (clear_checksum lba1 ++ behind))
                != header_checksum lba1
              then ok (some invalid_table_header_checksum)
              else if this_header_lba lba1 != 1
              then ok (some invalid_my_lba_header)
              else (do
                blocks ←
                    expect (read (u32 (starting_lba_of_array lba1)) (u8 (array_size lba1 / 512)))
                ok (check_array lba1 blocks))
            else ok (some invalid_partition_table_header))
      else ok (some invalid_protective_mbr)
