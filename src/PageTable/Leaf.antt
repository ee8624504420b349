-- ===== src/PageTable/Leaf.antt =====
-- A write to an entry of a last-level table: the tree stays, and one page changes its frame.
use ferr_os.Base.{
  ℕ, ◌≤◌, ◌≡◌, sym, ap, ◌∙◌, ◌⊎◌, inl, inr, none, some, List, ◌∷◌, arith, Option-cases, length,
  length-append,
}
use ferr_os.PageTable.{Tables}
use ferr_os.PageTable.Tree.{follow, IsTree, IsSlotChange, follow_avoiding}
use ferr_os.PageTable.Growth.{frame_of, entry_of, translation}

module _ (tables tables' : Tables) (offset root t i : ℕ) (p : List ℕ)
    (c : IsSlotChange tables tables' offset root t i p) (last : length p ≡ 3) where
  same_tables :
      (q : List ℕ) → length q ≤ 3 → follow tables' offset root q ≡ follow tables offset root q
  same_tables q bound =
      follow_avoiding tables tables' offset root t i p c q (omega arith)
        λ rest e. absurd (omega (arith, ap length e, length-append p (i ∷ rest)))

  pub leaf-IsTree : IsTree tables' offset root
  leaf-IsTree = record {
    unique = λ q r u hq hr eq er.
        c.tree.unique q r u hq hr (sym (same_tables q hq) ∙ eq) (sym (same_tables r hr) ∙ er);
  }

  pub follow_leaf :
      (q : List ℕ) → length q ≤ 3 → follow tables' offset root q ≡ follow tables offset root q
  follow_leaf = same_tables

  -- The page at the slot has the frame that was written.
  pub translation_self : translation tables' offset root p i ≡ frame_of (tables' t i)
  translation_self = ap (entry_of tables' i) (same_tables p (omega arith) ∙ c.place)

  -- Every other page keeps its frame.
  pub translation_other :
      (q : List ℕ) (k : ℕ)
      → length q ≡ 3
      → (q ≡ p → k ≡ i → ⊥)
      → translation tables' offset root q k ≡ translation tables offset root q k
  translation_other q k bound other =
      ap (entry_of tables' k) (same_tables q (omega arith))
      ∙ same_entry (Option-cases (follow tables offset root q))
    where
      same_entry :
          (follow tables offset root q ≡ none) ⊎ ((s : ℕ) × (follow tables offset root q ≡ some s))
          → entry_of tables' k (follow tables offset root q)
            ≡ entry_of tables k (follow tables offset root q)
      same_entry (inl e) = rw (e, entry_of)
      same_entry (inr (s, e)) =
          rw (e, entry_of)
            (ap frame_of (
              c.same q s k (omega arith) e λ same_table same_index.
                other
                  (c.tree.unique q p t (omega arith) (omega arith) (e ∙ ap some same_table) c.place)
                  same_index))
