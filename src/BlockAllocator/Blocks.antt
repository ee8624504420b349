-- ===== src/BlockAllocator/Blocks.antt =====
-- Free lists: what is freed is the next to be handed out, and blocks stay aligned.
use ferr_os.Base.{
  ℕ, zero, suc, ◌%◌, ◌<◌, ◌≡◌, refl, ap, ◌∙◌, ◌≢◌, inl, inr, true, some, List, [], ◌∷◌, arith, ltb,
  leb, ◌==◌, ltb→lt, ==_iff, Bool-cases, Option-cases, all_below, all_below_sound, length, get_or,
  set, All, ok,
}
use mathlib.Core.Path.{subst}
use ferr_os.BlockAllocator.{
  list_node_size, block_sizes, Layout, list_index, Heap, FixedSizeBlockAllocator, fallback_alloc,
  alloc_block, alloc, dealloc,
}
use ferr_os.BlockAllocator.Sizes.{list_index_lem}

get_or-set_self :
    {A : Type 0} (xs : List A) (i : ℕ) (v d : A) → i < length xs → get_or (set xs i v) i d ≡ v
get_or-set_self [] i v d h = absurd (omega arith)
get_or-set_self (x ∷ xs) zero v d h = refl
get_or-set_self (x ∷ xs) (suc i) v d h = get_or-set_self xs i v d (omega arith)

get_or-set_ne :
    {A : Type 0} (xs : List A) (i j : ℕ) (v d : A) → i ≢ j → get_or (set xs i v) j d ≡ get_or xs j d
get_or-set_ne [] i j v d h = refl
get_or-set_ne (x ∷ xs) zero zero v d h = absurd (h refl)
get_or-set_ne (x ∷ xs) zero (suc j) v d h = refl
get_or-set_ne (x ∷ xs) (suc i) zero v d h = refl
get_or-set_ne (x ∷ xs) (suc i) (suc j) v d h = get_or-set_ne xs i j v d (λ e. h (ap suc e))

set-set : {A : Type 0} (xs : List A) (i : ℕ) (u v : A) → set (set xs i u) i v ≡ set xs i v
set-set [] i u v = refl
set-set (x ∷ xs) zero u v = refl
set-set (x ∷ xs) (suc i) u v = ap (λ t. x ∷ t) (set-set xs i u v)

set-get_or :
    {A : Type 0} (xs : List A) (i : ℕ) (d : A) → i < length xs → set xs i (get_or xs i d) ≡ xs
set-get_or [] i d h = absurd (omega arith)
set-get_or (x ∷ xs) zero d h = refl
set-get_or (x ∷ xs) (suc i) d h = ap (λ t. x ∷ t) (set-get_or xs i d (omega arith))

-- `Layout::from_size_align` of a class's block.
abbrev block_layout : ℕ → Layout
block_layout i = record { size = get_or block_sizes i 0; align = get_or block_sizes i 0 }

module _ {H : Type 0} (heap : Heap H) where
  -- A block that was freed with a layout of some class is handed out by the next allocation of
  -- that class, and the allocator is then as it was before.
  pub dealloc-alloc :
      (ptr i : ℕ) (freed wanted : Layout) (self self' : FixedSizeBlockAllocator H)
      → list_index freed ≡ some i
      → list_index wanted ≡ some i
      → i < length self.list_heads
      → dealloc heap ptr freed self ≡ ok self'
      → alloc heap wanted self' ≡ (ptr, self)
  unfolding dealloc alloc alloc_block all_below
  dealloc-alloc ptr i freed wanted self self' ef ew below e =
      let old = get_or self.list_heads i [] in
      let room : leb list_node_size (get_or block_sizes i 0) ≡ true =
        all_below_sound 9 (λ k. leb list_node_size (get_or block_sizes k 0)) i refl
          ((list_index_lem freed).0 i ef).0 in
      let after : record self { list_heads = set self.list_heads i (ptr ∷ old) } ≡ self' =
        cc (rw (ef, room, dealloc) at e) in
      let stored = get_or-set_self self.list_heads i (ptr ∷ old) [] below in
      let back : set (set self.list_heads i (ptr ∷ old)) i old ≡ self.list_heads =
        set-set self.list_heads i (ptr ∷ old) old ∙ set-get_or self.list_heads i [] below in
      subst (λ (x : FixedSizeBlockAllocator H). alloc heap wanted x ≡ (ptr, self)) after
        (rw (ew, stored, alloc, alloc_block) (ap (λ t. (ptr, record self { list_heads = t })) back))

  -- Every free block starts at a multiple of its size.
  abbrev pub IsAligned : FixedSizeBlockAllocator H → Type 0
  IsAligned self = (i : ℕ) → All (λ b. b % get_or block_sizes i 0 ≡ 0) (get_or self.list_heads i [])

  -- The fallback allocator keeps the alignment that it is asked for.
  abbrev pub IsAligning : Type 0
  IsAligning =
      (layout : Layout) (h h' : H) (ptr : ℕ)
      → heap.allocate_first_fit layout h ≡ some (ptr, h')
      → ptr % layout.align ≡ 0

  fallback-heads :
      (layout : Layout) (self : FixedSizeBlockAllocator H)
      → (fallback_alloc heap layout self).1.list_heads ≡ self.list_heads
  unfolding fallback_alloc
  fallback-heads layout self = ground arith

  fallback-aligned :
      IsAligning
      → (layout : Layout) (self : FixedSizeBlockAllocator H) → 0 < layout.align
      → (fallback_alloc heap layout self).0 % layout.align ≡ 0
  unfolding fallback_alloc
  fallback-aligned aligning layout self positive =
      elim (Option-cases (heap.allocate_first_fit layout self.fallback_allocator)) [
        | inl failed ↦ rw (failed, fallback_alloc) (grind arith)
        | inr ((ptr, rest), found) ↦
            rw (found, fallback_alloc) (aligning layout self.fallback_allocator rest ptr found)
      ]

  -- Replacing the list of one class by an aligned one.
  set-IsAligned :
      (i : ℕ) (blocks : List ℕ) (self : FixedSizeBlockAllocator H)
      → i < length self.list_heads
      → IsAligned self
      → All (λ b. b % get_or block_sizes i 0 ≡ 0) blocks
      → IsAligned (record self { list_heads = set self.list_heads i blocks })
  set-IsAligned i blocks self below aligned new_ j = elim (Bool-cases (i == j)) [
    | inl same ↦
        let equal = (==_iff i j).0 same in
        subst
          (λ k.
            All (λ b. b % get_or block_sizes k 0 ≡ 0) (get_or (set self.list_heads i blocks) k []))
          equal (rw (get_or-set_self self.list_heads i blocks [] below) new_)
    | inr different ↦
        rw (get_or-set_ne self.list_heads i j blocks [] (λ e. cc (different, (==_iff i j).1 e)))
          (aligned j)
  ]

  -- With a fallback allocator that keeps alignments, and nine free lists of aligned blocks, an
  -- allocation of a class gives a multiple of the class's block size (the null pointer is one),
  -- and the free lists stay aligned.
  pub alloc-IsAligned :
      IsAligning
      → (layout : Layout) (i : ℕ) (self : FixedSizeBlockAllocator H) → length self.list_heads ≡ 9
      → IsAligned self
      → list_index layout ≡ some i
      → ((alloc heap layout self).0 % get_or block_sizes i 0 ≡ 0)
        × IsAligned (alloc heap layout self).1
  unfolding alloc alloc_block all_below
  alloc-IsAligned aligning layout i self nine aligned class =
      let below = ((list_index_lem layout).0 i class).0 in
      let positive : ltb 0 (get_or block_sizes i 0) ≡ true =
        all_below_sound 9 (λ k. ltb 0 (get_or block_sizes k 0)) i refl below in
      rw (class, alloc, alloc_block)
        (go (get_or self.list_heads i []) (aligned i) (ltb→lt _ _ positive))
    where
      go :
          (blocks : List ℕ)
          → All (λ b. b % get_or block_sizes i 0 ≡ 0) blocks
          → 0 < get_or block_sizes i 0
          → ((elim blocks as (λ _. ℕ × FixedSizeBlockAllocator H) [
            | [] ↦ fallback_alloc heap (block_layout i) self
            | node ∷ next ↦ (node, record self { list_heads = set self.list_heads i next })
          ]).0
                % get_or block_sizes i 0
              ≡ 0)
            × IsAligned
                (elim blocks as (λ _. ℕ × FixedSizeBlockAllocator H) [
                  | [] ↦ fallback_alloc heap (block_layout i) self
                  | node ∷ next ↦ (node, record self { list_heads = set self.list_heads i next })
                ]).1
      go [] _ positive = (
        fallback-aligned aligning _ self positive,
        λ j. rw (fallback-heads (block_layout i) self) (aligned j),
      )
      go (node ∷ next) (first, rest) positive = (
        first,
        set-IsAligned i next self (omega (arith, nine, ((list_index_lem layout).0 i class).0))
            aligned rest,
      )
