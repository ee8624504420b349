-- ===== src/BlockAllocator/Sizes.antt =====
-- The class of a layout is the smallest block that it fits.
use ferr_os.Base.{
  ℕ, zero, suc, ◌+◌, ◌-◌, ◌≤◌, ◌<◌, max, ◌≡◌, inl, inr, none, some, List, [], ◌∷◌, arith, leb,
  Bool-cases, length, get_or,
}
use ferr_os.BlockAllocator.{block_sizes, Layout, position_from, list_index}

position_lem :
    (sizes : List ℕ) (k required i : ℕ)
    → position_from k sizes required ≡ some i
    → (k ≤ i)
      × (i < k + length sizes)
      × (required ≤ get_or sizes (i - k) 0)
      × ((j : ℕ) → j < i - k → get_or sizes j 0 < required)
unfolding position_from
position_lem [] k required i e = cc
position_lem (s ∷ sizes) k required i e = elim (Bool-cases (leb required s)) [
  | inl fits ↦
      let same : k ≡ i = cc (rw (fits, position_from) at e) in
      let at_head : i - k ≡ 0 = omega arith in
      (omega arith, omega arith, rw at_head (ground (arith, fits)), λ j below. absurd (omega arith))
  | inr larger ↦
      let rest : position_from (k + 1) sizes required ≡ some i = rw (larger, position_from) at e in
      let (low, high, fits, minimal) = position_lem sizes (k + 1) required i rest in
      let next : i - k ≡ suc (i - (k + 1)) = omega arith in
      (
        omega arith,
        omega arith,
        rw next fits,
        λ j below. smaller j (i - (k + 1)) (omega arith) (ground (arith, larger)) minimal,
      )
]
  where
    smaller :
        (j n : ℕ)
        → j < suc n
        → s < required
        → ((j : ℕ) → j < n → get_or sizes j 0 < required)
        → get_or (s ∷ sizes) j 0 < required
    smaller zero n h head tail = head
    smaller (suc j) n h head tail = tail j (omega arith)

-- The class of a layout is that of the smallest block that is as large as its size and its
-- alignment. A layout has no class exactly if these are not both at most 2048.
pub list_index_lem :
    (layout : Layout)
    → ((i : ℕ)
        → list_index layout ≡ some i
        → (i < 9)
          × (max layout.size layout.align ≤ get_or block_sizes i 0)
          × ((j : ℕ) → j < i → get_or block_sizes j 0 < max layout.size layout.align))
      × (list_index layout ≡ none → 2048 < max layout.size layout.align)
      × (2048 < max layout.size layout.align → list_index layout ≡ none)
unfolding list_index position_from
list_index_lem layout = (
  λ i e.
      let (_, below, fits, minimal) =
        position_lem block_sizes 0 (max layout.size layout.align) i e in
      let same : i - 0 ≡ i = omega arith in (below, rw same at fits, rw same at minimal),
  λ e. ground arith,
  λ large. ground arith,
)
