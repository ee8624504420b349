-- ===== src/PageTable/Mapping.antt =====
-- What `map_address_impl` does to the translation of every page, for an allocator that hands out
-- tables not in use.
use ferr_os.Base.{
  ℕ, ◌+◌, ◌-◌, ◌^◌, ◌≤◌, bit_or, ◌≡◌, refl, sym, ap, ◌∙◌, ◌≢◌, inl, inr, true, false, some, List,
  [], ◌∷◌, ◌++◌, arith, ==_self, ne→not_==, Bool-cases, length, u64, Outcome, ok, err, panic, hang,
  ◌>>=◌,
}
use ferr_os.PageTable.{
  Tables, is_present, addr, clear, Machine, PageTablesAllocator, create_next_table, link_next_table,
  write_entry, set_addr, present, writable,
}
use ferr_os.PageTable.Entry.{IsFrame, set_addr_roundtrip, empty-is_present}
use ferr_os.PageTable.Tree.{follow, IsTree, follow-append}
use mathlib.Core.Path.{subst, subst₂}
use ferr_os.PageTable.Growth.{
  new_only, translation, IsGrowth, follow_new, growth-IsTree, translation_growth,
}

-- What an allocator can serve from, and the tables that it may still hand out.
pub record Pool (S : Type 0) : Type 1 where
  pub Ready : S → Type 0
  pub Reserved : S → ℕ → Type 0

-- What an allocation promises: the table was reserved and is no longer, it is empty, and the
-- entry that is made for it leads back to it.
pub record IsGrant {S : Type 0} (pool : Pool S) (offset : ℕ) (m m' : Machine S) (t : ℕ)
    : Type 0 where
  pub ready : pool.Ready m'.alloc
  pub reserved : pool.Reserved m.alloc t
  pub taken : ¬ pool.Reserved m'.alloc t
  pub fewer : (x : ℕ) → pool.Reserved m'.alloc x → pool.Reserved m.alloc x
  pub cleared : m'.tables ≡ clear m.tables t
  pub frame : IsFrame (u64 (t + 2 ^ 64 - offset))
  pub back : u64 (u64 (t + 2 ^ 64 - offset) + offset) ≡ t

pub record IsAllocator {S : Type 0} (pool : Pool S) (offset : ℕ) (allocator : PageTablesAllocator S)
    : Type 0 where
  pub grants :
      (m m' : Machine S) (t : ℕ)
      → pool.Ready m.alloc
      → allocator.allocate_page_table m ≡ ok (t, m')
      → IsGrant pool offset m m' t

-- The tables are a tree, and none of them is still reserved for an allocation.
pub record IsSound {S : Type 0} (pool : Pool S) (offset root : ℕ) (m : Machine S) : Type 0 where
  pub ready : pool.Ready m.alloc
  pub tree : IsTree m.tables offset root
  pub apart :
      (q : List ℕ) (t : ℕ)
      → length q ≤ 3
      → follow m.tables offset root q ≡ some t
      → ¬ pool.Reserved m.alloc t

module _ {S : Type 0} (pool : Pool S) (offset root : ℕ) (allocator : PageTablesAllocator S)
    (law : IsAllocator pool offset allocator) where
  -- The state after one level of the descent.
  pub record IsDescent (m m' : Machine S) (path : List ℕ) (n : ℕ) : Type 0 where
    pub sound : IsSound pool offset root m'
    pub place : follow m'.tables offset root path ≡ some n
    pub kept :
        (q : List ℕ) (k : ℕ)
        → length q ≡ 3
        → translation m'.tables offset root q k ≡ translation m.tables offset root q k

  module _ (m : Machine S) (s : IsSound pool offset root m) (p : List ℕ) (t i : ℕ)
      (place : follow m.tables offset root p ≡ some t) (shallow : length p ≤ 2) where
    link : ℕ → ℕ
    link n = set_addr (u64 (n + 2 ^ 64 - offset)) (bit_or present writable)

    grown : Machine S → ℕ → Tables
    grown m1 n = write_entry m1.tables t i (link n)

    granted-IsGrowth :
        (m1 : Machine S) (n : ℕ)
        → is_present (m.tables t i) ≡ false
        → IsGrant pool offset m m1 n
        → IsGrowth m.tables (grown m1 n) offset root t i n p
    unfolding grown link
    granted-IsGrowth m1 n absent g = record {
      change = record {
        tree = s.tree;
        place = place;
        depth = omega (arith, shallow);
        same = λ r u j hr er other. kept_entry r u j hr er other;
      };
      shallow = shallow;
      absent = absent;
      linked = rw slot (set_addr_roundtrip (u64 (n + 2 ^ 64 - offset)) g.frame).1;
      target = rw (slot, (set_addr_roundtrip (u64 (n + 2 ^ 64 - offset)) g.frame).0) g.back;
      empty = λ j. rw (row j) empty-is_present;
      fresh = fresh;
    }
      where
        fresh : (q : List ℕ) → length q ≤ 3 → follow m.tables offset root q ≢ some n
        fresh q h e = s.apart q n h e g.reserved

        apart : n ≢ t
        apart e = fresh p (omega (arith, shallow)) (place ∙ ap some (sym e))

        slot : grown m1 n t i ≡ link n
        slot = rw (==_self t, ==_self i)

        row : (j : ℕ) → grown m1 n n j ≡ 0
        row j = rw (ne→not_== n t apart, g.cleared, ==_self n)

        kept_entry :
            (r : List ℕ) (u j : ℕ)
            → length r ≤ 3
            → follow m.tables offset root r ≡ some u
            → (u ≡ t → j ≡ i → ⊥)
            → grown m1 n u j ≡ m.tables u j
        kept_entry r u j hr er other =
            rw (g.cleared, ne→not_== u n λ e. fresh r hr (er ∙ ap some e)) (ground (arith, other))

    granted-IsDescent :
        (m1 : Machine S) (n : ℕ)
        → is_present (m.tables t i) ≡ false
        → IsGrant pool offset m m1 n
        → IsDescent m (record m1 { tables = grown m1 n }) (p ++ i ∷ []) n
    granted-IsDescent m1 n absent g =
        let growth = granted-IsGrowth m1 n absent g in
        record {
          sound = record {
            ready = g.ready;
            tree = growth-IsTree m.tables (grown m1 n) offset root t i n p growth;
            apart = λ q u hq eq reserved. still_apart growth q u hq eq reserved;
          };
          place = follow_new m.tables (grown m1 n) offset root t i n p growth;
          kept = translation_growth m.tables (grown m1 n) offset root t i n p growth;
        }
      where
        still_apart :
            IsGrowth m.tables (grown m1 n) offset root t i n p
            → (q : List ℕ) (u : ℕ) → length q ≤ 3
            → follow (grown m1 n) offset root q ≡ some u
            → ¬ pool.Reserved m1.alloc u
        still_apart growth q u hq eq reserved =
            elim (new_only m.tables (grown m1 n) offset root t i n p growth q u hq eq) [
              | inl (_, e) ↦ g.taken (subst (pool.Reserved m1.alloc) e reserved)
              | inr old ↦ s.apart q u hq old (g.fewer u reserved)
            ]

    present-IsDescent :
        is_present (m.tables t i) ≡ true
        → IsDescent m m (p ++ i ∷ []) (u64 (addr (m.tables t i) + offset))
    present-IsDescent present = record {
      sound = s;
      place = follow-append m.tables offset root t p (i ∷ []) place ∙ rw present;
      kept = λ q k h. refl;
    }

    -- One level down, to a table that was there or to a new one.
    pub create_next_table-IsDescent :
        (m' : Machine S) (n : ℕ)
        → create_next_table allocator t i offset m ≡ ok (n, m')
        → IsDescent m m' (p ++ i ∷ []) n
    unfolding create_next_table grown link
    create_next_table-IsDescent m' n e = elim (Bool-cases (is_present (m.tables t i))) [
      | inl present ↦ transfer m _ (rw present at e) (present-IsDescent present)
      | inr absent ↦ from_allocation (allocator.allocate_page_table m) refl absent (rw absent at e)
    ]
      where
        transfer :
            (m1 : Machine S) (n1 : ℕ)
            → ◌≡◌ {A = Outcome (ℕ × Machine S)} (ok (n1, m1)) (ok (n, m'))
            → IsDescent m m1 (p ++ i ∷ []) n1
            → IsDescent m m' (p ++ i ∷ []) n
        transfer m1 n1 h d = subst₂ (λ a b. IsDescent m b (p ++ i ∷ []) a) (cc) (cc) d

        from_allocation :
            (o : Outcome (ℕ × Machine S))
            → allocator.allocate_page_table m ≡ o
            → is_present (m.tables t i) ≡ false
            → (o >>= link_next_table t i offset) ≡ ok (n, m')
            → IsDescent m m' (p ++ i ∷ []) n
        from_allocation (ok (n1, m1)) granted absent h =
            transfer (record m1 { tables = grown m1 n1 }) n1 h
              (granted-IsDescent m1 n1 absent (law.grants m m1 n1 s.ready granted))
        from_allocation (err x) granted absent h = cc
        from_allocation panic granted absent h = cc
        from_allocation hang granted absent h = cc
