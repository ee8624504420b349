-- ===== src/PageTable/Tree.antt =====
-- Tables as a tree: following a path of indices from a root, and how one write changes that.
use ferr_os.Base.{
  ℕ, ◌+◌, ◌≤◌, ◌≡◌, refl, sym, ap, ap₂, ◌∙◌, ◌≢◌, ◌⊎◌, inl, inr, true, Option, none, some, List, [],
  ◌∷◌, ◌++◌, arith, if◌then◌else◌, Bool-cases, length, length-append, u64,
}
use mathlib.Core.List.{append_assoc}
use native.Mathlib.Decide.{ℕ_discrete}
use ferr_os.PageTable.{Tables, is_present, addr}

-- The table at the end of a path. `offset` turns an entry's address into the one in use.
abbrev pub follow : Tables → ℕ → ℕ → List ℕ → Option ℕ
follow tables offset table [] = some table
follow tables offset table (i ∷ path) =
    if is_present (tables table i)
    then follow tables offset (u64 (addr (tables table i) + offset)) path
    else none

-- No two paths to a table below the top level, or to the top, end in the same one.
pub record IsTree (tables : Tables) (offset root : ℕ) : Type 0 where
  pub unique :
      (p q : List ℕ) (t : ℕ)
      → length p ≤ 3
      → length q ≤ 3
      → follow tables offset root p ≡ some t
      → follow tables offset root q ≡ some t
      → p ≡ q

pub follow-append :
    (tables : Tables) (offset root t : ℕ) (p q : List ℕ)
    → follow tables offset root p ≡ some t
    → follow tables offset root (p ++ q) ≡ follow tables offset t q
follow-append tables offset root t [] q e = ap (λ s. follow tables offset s q) (cc)
follow-append tables offset root t (i ∷ p) q e = elim (Bool-cases (is_present (tables root i))) [
  | inl yes_ ↦
      rw yes_
        (follow-append tables offset (u64 (addr (tables root i) + offset)) t p q (rw yes_ at e))
  | inr no_ ↦ absurd (none-ne-some (rw no_ at e))
]
  where
    none-ne-some : ◌≡◌ {A = Option ℕ} none (some t) → ⊥
    none-ne-some h = cc

-- Whether a path goes through the slot at the index `i` of the table at the end of `p`.
pub slot-cases :
    (p : List ℕ) (i : ℕ) (path : List ℕ)
    → ((rest : List ℕ) × (path ≡ p ++ i ∷ rest)) ⊎ ((rest : List ℕ) → path ≢ p ++ i ∷ rest)
slot-cases [] i [] = inr (λ rest e. cc)
slot-cases [] i (j ∷ path) = elim (ℕ_discrete j i) [
  | yes e ↦ inl (path, ap (λ t. t ∷ path) e)
  | no n ↦ inr (λ rest e. n (cc))
]
slot-cases (k ∷ p) i [] = inr (λ rest e. cc)
slot-cases (k ∷ p) i (j ∷ path) = elim (ℕ_discrete j k) [
  | yes e ↦ elim (slot-cases p i path) [
    | inl (rest, h) ↦ inl (rest, ap₂ ◌∷◌ e h)
    | inr h ↦ inr (λ rest e'. h rest (cc))
  ]
  | no n ↦ inr (λ rest e. n (cc))
]

-- `tables'` differs from `tables` on the tree at most in the slot `i` of the table `t`.
module _ (tables tables' : Tables) (offset root t i : ℕ) (p : List ℕ) where
  pub record IsSlotChange : Type 0 where
    pub tree : IsTree tables offset root
    pub place : follow tables offset root p ≡ some t
    pub depth : length p ≤ 3
    pub same :
        (r : List ℕ) (s j : ℕ)
        → length r ≤ 3
        → follow tables offset root r ≡ some s
        → (s ≡ t → j ≡ i → ⊥)
        → tables' s j ≡ tables s j

  agree :
      IsSlotChange
      → (q r : List ℕ) (s : ℕ) → follow tables offset root r ≡ some s
      → length r + length q ≤ 4
      → ((rest : List ℕ) → r ++ q ≢ p ++ i ∷ rest)
      → follow tables' offset s q ≡ follow tables offset s q
  agree c [] r s e bound avoid = refl
  agree c (j ∷ q) r s e bound avoid = rw row (elim (Bool-cases (is_present (tables s j))) [
    | inl present ↦ rw present (
        agree c q (r ++ j ∷ []) (u64 (addr (tables s j) + offset)) (deeper present)
          (omega (arith, length-append r (j ∷ [])))
          (λ rest e'. avoid rest (sym (append_assoc r (j ∷ []) q) ∙ e')))
    | inr absent ↦ rw absent
  ])
    where
      row : tables' s j ≡ tables s j
      row = c.same r s j (omega arith) e λ same_table same_index. avoid q (
          ap₂ (λ x y. x ++ y ∷ q)
            (c.tree.unique r p t (omega arith) c.depth (e ∙ ap some same_table) c.place) same_index)

      deeper :
          is_present (tables s j) ≡ true
          → follow tables offset root (r ++ j ∷ []) ≡ some (u64 (addr (tables s j) + offset))
      deeper present = follow-append tables offset root s r (j ∷ []) e ∙ rw present

  -- A path that does not go through the slot ends where it did.
  pub follow_avoiding :
      IsSlotChange
      → (q : List ℕ) → length q ≤ 4
      → ((rest : List ℕ) → q ≢ p ++ i ∷ rest)
      → follow tables' offset root q ≡ follow tables offset root q
  follow_avoiding c q bound avoid = agree c q [] root refl (omega arith) avoid
