-- ===== src/PageTable/Translate.antt =====
-- `map_address_impl` and its three entry points, as a change of one page's translation.
use ferr_os.Base.{
  ℕ, ◌%◌, ◌^◌, ◌<◌, bit_or, ◌≡◌, refl, sym, ap, ◌∙◌, inl, inr, true, Option, some, List, [], ◌∷◌,
  arith, ◌==◌, ◌!=◌, ==_iff, ==_self, Bool-cases, length, ok, err,
}
use ferr_os.Base.{>>=-eq-ok}
use mathlib.Core.Path.{subst}
use ferr_os.Addr.{VirtAddr, p4_index, p3_index, p2_index, p1_index}
use ferr_os.PageTable.{
  Tables, is_present, addr, Machine, PageTablesAllocator, create_next_table, write_entry, set_addr,
  present, writable, MappingMode, check_frame_is_free, remapping, set_l1_entry, finish_mapping,
  map_aligned, map_address_impl,
}
use ferr_os.PageTable.Entry.{IsFrame, set_addr_roundtrip}
use ferr_os.PageTable.Tree.{follow, IsSlotChange}
use ferr_os.PageTable.Growth.{translation, entry_of}
use ferr_os.PageTable.Leaf.{leaf-IsTree, follow_leaf, translation_self, translation_other}
use ferr_os.PageTable.Mapping.{Pool, IsAllocator, IsSound, create_next_table-IsDescent}

abbrev pub table_path : VirtAddr → List ℕ
table_path v = p4_index v ∷ p3_index v ∷ p2_index v ∷ []

-- The frame of the page of an address, where the tables have one.
abbrev pub page_frame : Tables → ℕ → ℕ → VirtAddr → Option ℕ
page_frame tables offset root v = translation tables offset root (table_path v) (p1_index v)

module _ {S : Type 0} (pool : Pool S) (offset root : ℕ) where
  -- One slot leads to `phys`; all else is as before.
  pub record IsMapped (m m' : Machine S) (path : List ℕ) (k phys : ℕ) : Type 0 where
    pub sound : IsSound pool offset root m'
    pub at : translation m'.tables offset root path k ≡ some phys
    pub others :
        (q : List ℕ) (j : ℕ)
        → length q ≡ 3
        → (q ≡ path → j ≡ k → ⊥)
        → translation m'.tables offset root q j ≡ translation m.tables offset root q j

  module _ (m : Machine S) (s : IsSound pool offset root m) (path : List ℕ) (last : length path ≡ 3)
      (t k phys : ℕ) (place : follow m.tables offset root path ≡ some t)
      (frame : IsFrame phys) where
    written : Tables
    written = write_entry m.tables t k (set_addr phys (bit_or present writable))

    written-IsSlotChange : IsSlotChange m.tables written offset root t k path
    unfolding written
    written-IsSlotChange = record {
      tree = s.tree;
      place = place;
      depth = omega (arith, last);
      same = λ r u j hr er other. ground (arith, other);
    }

    written-IsMapped :
        IsMapped m (record m { tables = written; invalidated = phys ∷ m.invalidated }) path k phys
    unfolding written
    written-IsMapped = record {
      sound = record {
        ready = s.ready;
        tree = leaf-IsTree m.tables written offset root t k path written-IsSlotChange last;
        apart = λ q u hq eq. s.apart q u hq (
            sym (follow_leaf m.tables written offset root t k path written-IsSlotChange last q hq)
            ∙ eq);
      };
      at =
          translation_self m.tables written offset root t k path written-IsSlotChange last
          ∙ rw (
            ==_self t,
            ==_self k,
            (set_addr_roundtrip phys frame).0,
            (set_addr_roundtrip phys frame).1,
          );
      others = translation_other m.tables written offset root t k path written-IsSlotChange last;
    }

    pub finish_mapping-IsMapped :
        (mode : MappingMode) (m' : Machine S)
        → finish_mapping mode t k phys m ≡ ok m'
        → IsMapped m m' path k phys
    unfolding finish_mapping set_l1_entry written
    finish_mapping-IsMapped mode m' e = elim (Bool-cases (is_present (m.tables t k))) [
      | inl present ↦ elim (Bool-cases (addr (m.tables t k) == phys)) [
        | inl same ↦ arrive (rw (present, same) at e) (already present ((==_iff _ _).0 same))
        | inr different ↦ by_mode mode (rw (present, different) at e)
      ]
      | inr absent ↦ arrive (rw absent at e) written-IsMapped
    ]
      where
        arrive :
            {m1 : Machine S} → ok m1 ≡ ok m' → IsMapped m m1 path k phys → IsMapped m m' path k phys
        arrive h r = subst (λ x. IsMapped m x path k phys) (cc) r

        already :
            is_present (m.tables t k) ≡ true → addr (m.tables t k) ≡ phys → IsMapped m m path k phys
        already there same = record {
          sound = s;
          at = ap (entry_of m.tables k) place ∙ rw (there, same);
          others = λ q j h o. refl;
        }

        by_mode :
            (mode : MappingMode)
            → elim mode [
              | check_frame_is_free ↦ err "this virtual address already mapped to another frame"
              | remapping ↦ set_l1_entry t k phys m
            ]
              ≡ ok m'
            → IsMapped m m' path k phys
        by_mode check_frame_is_free h = cc
        by_mode remapping h = arrive h written-IsMapped

  module _ (allocator : PageTablesAllocator S) (law : IsAllocator pool offset allocator) where
    map_aligned-IsMapped :
        (m m' : Machine S) (virt phys : ℕ) (mode : MappingMode)
        → IsSound pool offset root m
        → IsFrame phys
        → map_aligned allocator root virt phys mode offset m ≡ ok m'
        → IsMapped m m' (table_path virt) (p1_index virt) phys
    unfolding map_aligned
    map_aligned-IsMapped m m' virt phys mode s frame e =
        let ((t3, m3), e3, r3) =
          >>=-eq-ok (create_next_table allocator root (p4_index virt) offset m) _ e in
        let d3 =
          create_next_table-IsDescent pool offset root allocator law m s [] root (p4_index virt)
            refl (omega arith) m3 t3 e3 in
        let ((t2, m2), e2, r2) =
          >>=-eq-ok (create_next_table allocator t3 (p3_index virt) offset m3) _ r3 in
        let d2 =
          create_next_table-IsDescent pool offset root allocator law m3 d3.sound
            (p4_index virt ∷ []) t3 (p3_index virt) d3.place (omega arith) m2 t2 e2 in
        let ((t1, m1), e1, r1) =
          >>=-eq-ok (create_next_table allocator t2 (p2_index virt) offset m2) _ r2 in
        let d1 =
          create_next_table-IsDescent pool offset root allocator law m2 d2.sound
            (p4_index virt ∷ p3_index virt ∷ []) t2 (p2_index virt) d2.place (omega arith) m1 t1
            e1 in
        let mapped =
          finish_mapping-IsMapped m1 d1.sound (table_path virt) refl t1 (p1_index virt) phys
            d1.place frame mode m' r1 in
        record {
          sound = mapped.sound;
          at = mapped.at;
          others = λ q j h o. mapped.others q j h o ∙ d1.kept q j h ∙ d2.kept q j h ∙ d3.kept q j h;
        }

    -- A successful call keeps the tables sound, leads the page of `virt` to `phys`, and changes
    -- no other slot.
    pub map_address_impl-IsMapped :
        (m m' : Machine S) (virt phys : ℕ) (mode : MappingMode)
        → IsSound pool offset root m
        → phys < 2 ^ 52
        → map_address_impl allocator root virt phys mode offset m ≡ ok m'
        → IsMapped m m' (table_path virt) (p1_index virt) phys
    unfolding map_address_impl
    map_address_impl-IsMapped m m' virt phys mode s small e = elim (Bool-cases (virt % 4096 != 0)) [
      | inl odd ↦ absurd (cc (rw odd at e))
      | inr even ↦ elim (Bool-cases (phys % 4096 != 0)) [
        | inl odd ↦ absurd (cc (rw (even, odd) at e))
        | inr frame ↦
            map_aligned-IsMapped m m' virt phys mode s (small, ground arith) (rw (even, frame) at e)
      ]
    ]
