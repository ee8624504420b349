-- ===== src/PageTable/Growth.antt =====
-- A new, empty table in a free slot of the tree: the tree stays one, and no page changes its frame.
use ferr_os.Base.{
  ℕ, ◌+◌, ◌≤◌, ◌≡◌, sym, ap, ◌∙◌, ◌≢◌, ◌⊎◌, inl, inr, true, false, Option, none, some, List, [],
  ◌∷◌, ◌++◌, arith, if◌then◌else◌, Option-cases, length, length-append, u64,
}
use ferr_os.PageTable.{Tables, is_present, addr}
use ferr_os.PageTable.Tree.{
  follow, IsTree, follow-append, slot-cases, IsSlotChange, follow_avoiding,
}

-- The frame that an entry gives, if it is present.
abbrev pub frame_of : ℕ → Option ℕ
frame_of entry = if is_present entry then some (addr entry) else none

abbrev pub entry_of : Tables → ℕ → Option ℕ → Option ℕ
entry_of tables k none = none
entry_of tables k (some t) = frame_of (tables t k)

-- The frame of the page at the index `k` of the table at the end of a path.
abbrev pub translation : Tables → ℕ → ℕ → List ℕ → ℕ → Option ℕ
translation tables offset root path k = entry_of tables k (follow tables offset root path)

module _ (tables tables' : Tables) (offset root t i n : ℕ) (p : List ℕ) where
  pub record IsGrowth : Type 0 where
    pub change : IsSlotChange tables tables' offset root t i p
    pub shallow : length p ≤ 2
    pub absent : is_present (tables t i) ≡ false
    pub linked : is_present (tables' t i) ≡ true
    pub target : u64 (addr (tables' t i) + offset) ≡ n
    pub empty : (j : ℕ) → is_present (tables' n j) ≡ false
    pub fresh : (q : List ℕ) → length q ≤ 3 → follow tables offset root q ≢ some n

  module _ (g : IsGrowth) where
    kept : follow tables' offset root p ≡ some t
    kept =
        follow_avoiding tables tables' offset root t i p g.change p (omega (arith, g.shallow))
          longer
        ∙ g.change.place
      where
        longer : (rest : List ℕ) → p ≢ p ++ i ∷ rest
        longer rest e = absurd (omega (arith, ap length e, length-append p (i ∷ rest)))

    through :
        (rest : List ℕ) → follow tables' offset root (p ++ i ∷ rest) ≡ follow tables' offset n rest
    through rest = follow-append tables' offset root t p (i ∷ rest) kept ∙ rw (g.linked, g.target)

    beyond : (j : ℕ) (rest : List ℕ) → follow tables' offset root (p ++ i ∷ j ∷ rest) ≡ none
    beyond j rest = through (j ∷ rest) ∙ rw (g.empty j)

    was_none : (rest : List ℕ) → follow tables offset root (p ++ i ∷ rest) ≡ none
    was_none rest = follow-append tables offset root t p (i ∷ rest) g.change.place ∙ rw g.absent

    -- The new table is at the end of the path through the slot.
    pub follow_new : follow tables' offset root (p ++ i ∷ []) ≡ some n
    follow_new = through []

    pub new_only :
        (q : List ℕ) (u : ℕ)
        → length q ≤ 3
        → follow tables' offset root q ≡ some u
        → ((q ≡ p ++ i ∷ []) × (u ≡ n)) ⊎ (follow tables offset root q ≡ some u)
    new_only q u bound e = elim (slot-cases p i q) [
      | inl ([], h) ↦ inl (h, cc (ap (follow tables' offset root) h, follow_new))
      | inl (j ∷ rest, h) ↦ absurd (cc (ap (follow tables' offset root) h, beyond j rest))
      | inr avoid ↦ inr (
          sym (follow_avoiding tables tables' offset root t i p g.change q (omega arith) avoid) ∙ e)
    ]

    pub growth-IsTree : IsTree tables' offset root
    growth-IsTree = record {
      unique = λ q r u hq hr eq er. elim (new_only q u hq eq) [
        | inl (q_new, u_new) ↦ elim (new_only r u hr er) [
          | inl (r_new, _) ↦ q_new ∙ sym r_new
          | inr old ↦ absurd (g.fresh r hr (old ∙ ap some u_new))
        ]
        | inr old ↦ elim (new_only r u hr er) [
          | inl (_, u_new) ↦ absurd (g.fresh q hq (old ∙ ap some u_new))
          | inr old_r ↦ g.change.tree.unique q r u hq hr old old_r
        ]
      ];
    }

    translation_through :
        (rest : List ℕ) (k : ℕ)
        → translation tables' offset root (p ++ i ∷ rest) k
          ≡ translation tables offset root (p ++ i ∷ rest) k
    translation_through [] k = rw (follow_new, was_none [], g.empty k)
    translation_through (j ∷ rest) k = rw (beyond j rest, was_none (j ∷ rest))

    -- No page gets another frame.
    pub translation_growth :
        (q : List ℕ) (k : ℕ)
        → length q ≡ 3
        → translation tables' offset root q k ≡ translation tables offset root q k
    translation_growth q k bound = elim (slot-cases p i q) [
      | inl (rest, h) ↦
          ap (λ x. translation tables' offset root x k) h
          ∙ translation_through rest k
          ∙ sym (ap (λ x. translation tables offset root x k) h)
      | inr avoid ↦
          ap (entry_of tables' k)
            (follow_avoiding tables tables' offset root t i p g.change q (omega arith) avoid)
          ∙ same_entry (Option-cases (follow tables offset root q))
    ]
      where
        same_entry :
            (follow tables offset root q ≡ none)
              ⊎ ((s : ℕ) × (follow tables offset root q ≡ some s))
            → entry_of tables' k (follow tables offset root q)
              ≡ entry_of tables k (follow tables offset root q)
        same_entry (inl e) = rw (e, entry_of)
        same_entry (inr (s, e)) =
            rw (e, entry_of)
              (ap frame_of (
                g.change.same q s k (omega arith) e λ same_table _. absurd (
                  omega (
                    arith,
                    g.shallow,
                    ap length (
                        g.change.tree.unique q p t (omega arith) (omega (arith, g.shallow))
                          (e ∙ ap some same_table) g.change.place),
                  ))))
