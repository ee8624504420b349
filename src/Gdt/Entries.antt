-- ===== src/Gdt/Entries.antt =====
-- Adding entries, and the table that the kernel loads.
use ferr_os.Base.{
  ℕ, ◌+◌, ◌/◌, ◌%◌, ◌^◌, ◌≤◌, ◌<◌, bit_and, ◌≡◌, refl, ◌∙◌, some, List, [], ◌∷◌, ◌++◌, arith,
  length, get_elem?, set, replicate, length-set, get_elem?-set_self, get_elem?-set_ne, u16, ◌>>◌,
  ok, panic,
}
use ferr_os.Base.Bits.{and_field}
use ferr_os.Gdt.{
  Descriptor, user_segment, system_segment, value_low, dpl, dpl_ring_3, from_u16,
  GlobalDescriptorTable, push, push_entry, add_entry, new_selector, kernel_code_segment,
  kernel_data_segment, tss_segment_unchecked, gdt_and_selectors,
}
use ferr_os.Gdt.Tss.{tss_segment_lem}

-- A descriptor's words.
abbrev pub words : Descriptor → List ℕ
words (user_segment v) = v ∷ []
words (system_segment low high) = low ∷ high ∷ []

-- In a table of two entries or more, a descriptor is appended if there is room for its words,
-- and no entry before it changes. A descriptor that does not fit is a panic.
pub push_entry_lem :
    (entry : Descriptor) (self : GlobalDescriptorTable)
    → 2 ≤ length self.table
    → (self.len + length (words entry) ≤ length self.table
        → (after : GlobalDescriptorTable) × (push_entry entry self ≡ ok (self.len, after))
          × (after.len ≡ self.len + length (words entry))
          × (get_elem? after.table self.len ≡ some (value_low entry))
          × ((i : ℕ) → i < self.len → get_elem? after.table i ≡ get_elem? self.table i))
      × (length self.table < self.len + length (words entry) → push_entry entry self ≡ panic)
unfolding push_entry push
push_entry_lem (user_segment v) self h = (
  λ room. (
    record { table = set self.table self.len v; len = self.len + 1 },
    ground arith,
    refl,
    get_elem?-set_self self.table self.len v (omega arith),
    λ i below. get_elem?-set_ne self.table self.len i v (λ e. absurd (omega arith)),
  ),
  λ full. ground arith,
)
push_entry_lem (system_segment low high) self h =
    let first = set self.table self.len low in
    let long = length-set self.table self.len low in
    (
      λ room. (
        record { table = set first (self.len + 1) high; len = self.len + 2 },
        ground (arith, long),
        refl,
        get_elem?-set_ne first (self.len + 1) self.len high (λ e. absurd (omega arith))
            ∙ get_elem?-set_self self.table self.len low (omega arith),
        λ i below.
            get_elem?-set_ne first (self.len + 1) i high (λ e. absurd (omega arith))
            ∙ get_elem?-set_ne self.table self.len i low (λ e. absurd (omega arith)),
      ),
      λ full. ground arith,
    )

tss_dpl :
    (ptr : ℕ)
    → ptr < 2 ^ 64
    → ptr / 2 ^ 29 % 2 ^ 2 ≡ 0
    → u16 (bit_and (value_low (tss_segment_unchecked ptr)) dpl_ring_3 >> 45) ≡ 0
tss_dpl ptr h z =
    let (_, _, _, _, f) = tss_segment_lem ptr h in
    omega (arith, and_field 2 45 (value_low (tss_segment_unchecked ptr)), f)

-- Where bits 29 and 30 of the task state segment's 64-bit address are clear, the kernel's
-- descriptor table has the null entry, the code segment, the two words of the task state segment
-- and the data segment; and the selectors are their offsets, with privilege level 0.
pub gdt_and_selectors_lem :
    (ptr : ℕ)
    → ptr < 2 ^ 64
    → ptr / 2 ^ 29 % 2 ^ 2 ≡ 0
    → gdt_and_selectors ptr
      ≡ ok (record {
        gdt = record {
          table =
              0 ∷ words kernel_code_segment
              ++ words (tss_segment_unchecked ptr)
              ++ words kernel_data_segment
              ++ replicate 3 0;
          len = 5;
        };
        code_selector = 8;
        tss_selector = 16;
        data_selector = 32;
      })
unfolding gdt_and_selectors add_entry push_entry push dpl from_u16 new_selector
    tss_segment_unchecked
gdt_and_selectors_lem ptr h z = rw (tss_dpl ptr h z) refl
