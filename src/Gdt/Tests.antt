-- ===== src/Gdt/Tests.antt =====
-- The theorems on the descriptor table at concrete addresses.
use ferr_os.Base.{
  ℕ, ◌+◌, ◌/◌, ◌%◌, ◌^◌, ◌≤◌, ◌<◌, bit_or, ◌≡◌, refl, some, ◌∷◌, ◌++◌, arith, get_elem?, replicate,
  ok, panic,
}
use ferr_os.Gdt.{
  user_segment, value_low, push_entry, new_gdt, GlobalDescriptorTable, kernel_code_segment,
  kernel_data_segment, tss_segment_unchecked, gdt_and_selectors,
}
use ferr_os.Gdt.Tss.{tss_segment_lem}
use ferr_os.Gdt.Entries.{words, push_entry_lem, gdt_and_selectors_lem}

tss_segment_test :
    (value_low (tss_segment_unchecked 0x1122_3344) / 2 ^ 0 % 2 ^ 16 ≡ 103)
    × (value_low (tss_segment_unchecked 0x1122_3344) / 2 ^ 16 % 2 ^ 24 ≡ 0x1122_3344 % 2 ^ 24)
    × (value_low (tss_segment_unchecked 0x1122_3344) / 2 ^ 56 % 2 ^ 8
        ≡ 0x1122_3344 / 2 ^ 24 % 2 ^ 8)
    × (value_low (tss_segment_unchecked 0x1122_3344) / 2 ^ 40 % 2 ^ 4
        ≡ bit_or (0x1122_3344 / 2 ^ 24 % 2 ^ 4) 9)
    × (value_low (tss_segment_unchecked 0x1122_3344) / 2 ^ 45 % 2 ^ 2
        ≡ 0x1122_3344 / 2 ^ 29 % 2 ^ 2)
tss_segment_test = tss_segment_lem 0x1122_3344 (omega arith)

push_entry_test :
    (1 + 1 ≤ 8
      → (after : GlobalDescriptorTable) × (push_entry (user_segment 7) new_gdt ≡ ok (1, after))
        × (after.len ≡ 1 + 1)
        × (get_elem? after.table 1 ≡ some 7)
        × ((i : ℕ) → i < 1 → get_elem? after.table i ≡ get_elem? new_gdt.table i))
    × (8 < 1 + 1 → push_entry (user_segment 7) new_gdt ≡ panic)
push_entry_test = push_entry_lem (user_segment 7) new_gdt (omega arith)

gdt_and_selectors_test :
    gdt_and_selectors 0x1234_5678
    ≡ ok (record {
      gdt = record {
        table =
            0 ∷ words kernel_code_segment
            ++ words (tss_segment_unchecked 0x1234_5678)
            ++ words kernel_data_segment
            ++ replicate 3 0;
        len = 5;
      };
      code_selector = 8;
      tss_selector = 16;
      data_selector = 32;
    })
gdt_and_selectors_test = gdt_and_selectors_lem 0x1234_5678 (omega arith) refl
