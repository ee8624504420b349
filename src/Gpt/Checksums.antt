-- ===== src/Gpt/Checksums.antt =====
-- The checksum of the array of entries, block by block.
use ferr_os.Crc.{crc_loop}
use ferr_os.Base.{
  ℕ, zero, suc, ◌-◌, ◌*◌, ◌≤◌, min, ◌≡◌, refl, sym, ap, ◌∙◌, none, some, List, [], ◌∷◌, ◌++◌, arith,
  ltb, ◌==◌, if◌then◌else◌, length, take, All,
}
use ferr_os.Crc.{calculate_crc32, calculate_crc32_partial}
use ferr_os.Crc.Division.{partial-append, crc_loop-partial}
use ferr_os.Gpt.{
  Block, entries_loop, check_array, array_size, array_checksum, invalid_entries_array_checksum,
}

abbrev pub concat : List Block → List ℕ
concat [] = []
concat (block ∷ blocks) = block ++ concat blocks

take_all : (n : ℕ) (xs : List ℕ) → length xs ≤ n → take n xs ≡ xs
take_all zero [] h = refl
take_all zero (x ∷ xs) h = absurd (omega arith)
take_all (suc n) [] h = refl
take_all (suc n) (x ∷ xs) h = ap (λ t. x ∷ t) (take_all n xs (omega arith))

loop-concat :
    (blocks : List Block) (checksum remain : ℕ)
    → All (λ block. length block ≡ 512) blocks
    → 512 * length blocks ≤ remain
    → entries_loop blocks checksum remain ≡ calculate_crc32_partial (concat blocks) checksum
unfolding entries_loop calculate_crc32_partial
loop-concat [] checksum remain h enough = refl
loop-concat (block ∷ blocks) checksum remain (whole, h) enough =
    let cut : min remain 512 ≡ 512 = omega arith in
    let all_ : take (min remain 512) block ≡ block =
      ap (λ n. take n block) cut ∙ take_all 512 block (omega arith) in
    let next = if ltb 512 remain then remain - 512 else remain in
    let left : 512 * length blocks ≤ next = ground arith in
    loop-concat blocks (calculate_crc32_partial (take (min remain 512) block) checksum) next h left
    ∙ ap (λ t. calculate_crc32_partial (concat blocks) (calculate_crc32_partial t checksum)) all_
    ∙ sym (partial-append block (concat blocks) checksum)

-- With blocks of 512 bytes, no more of them than the array is long, the array is accepted exactly if the
-- header has the checksum of all their bytes together.
pub check_array_lem :
    (lba1 : Block) (blocks : List Block)
    → All (λ block. length block ≡ 512) blocks
    → 512 * length blocks ≤ array_size lba1
    → check_array lba1 blocks ≡ (
        if array_checksum lba1 == calculate_crc32 (concat blocks)
        then none
        else some invalid_entries_array_checksum)
unfolding check_array calculate_crc32
check_array_lem lba1 blocks h enough =
    let same : entries_loop blocks 0xffff_ffff (array_size lba1)
        ≡ crc_loop (concat blocks) 0xffff_ffff =
      loop-concat blocks 0xffff_ffff (array_size lba1) h enough
      ∙ sym (crc_loop-partial (concat blocks) 0xffff_ffff) in
    ground (arith, same)
