-- ===== src/FrameAllocator/Tables.antt =====
-- The frame allocator as the page tables' allocator: it never hands out a frame twice, so its
-- tables are not in use.
use ferr_os.Base.{length}
use ferr_os.Base.{
  ==_self, ℕ, ◌+◌, ◌^◌, ◌<◌, ◌≡◌, refl, sym, ap, ◌∙◌, inl, inr, Option, none, some, List, [], ◌∷◌,
  arith, Option-cases, get_elem?, u64, Outcome, ok, expect,
}
use mathlib.Core.Path.{subst, subst₂}
use ferr_os.Addr.{new_checked}
use ferr_os.Addr.Laws.{new_checked_lem, new-IsCanonical}
use ferr_os.PageTable.{Machine, clear}
use ferr_os.PageTable.Entry.{empty-is_present}
use ferr_os.PageTable.Tree.{follow}
use ferr_os.PageTable.Mapping.{IsSound, IsGrant, IsAllocator}
use ferr_os.FrameAllocator.{FrameAllocator, frames_of, allocate_page_table, frame_allocator}
use ferr_os.FrameAllocator.Frames.{frames_of-Origin, frames_of-distinct}
use ferr_os.FrameAllocator.Supply.{
  IsReady, IsReserved, frame_pool, Origin-IsFrame, allocate_frame-run, allocate_frame-next,
}

pub mapped_page :
    (offset f : ℕ) (s : FrameAllocator)
    → s.mapping_offset ≡ offset
    → offset < 2 ^ 46
    → f < 2 ^ 46
    → expect (new_checked (u64 (f + s.mapping_offset))) ≡ ok (f + offset)
mapped_page offset f s at small low =
    rw (at, new_checked_lem (u64 (f + offset)) (omega arith))
      (ground (arith, (new-IsCanonical (f + offset)).2 (omega arith)))

-- The table that a successful call returns, and the state after it.
allocate_page_table-eq :
    (offset : ℕ) (m m' : Machine FrameAllocator) (t : ℕ) (ready : IsReady offset m.alloc)
    → allocate_page_table m ≡ ok (t, m')
    → (f : ℕ) × (get_elem? (frames_of ready.regions) m.alloc.next ≡ some f)
      × (t ≡ f + offset)
      × (m' ≡ record m {
        alloc = record (m.alloc) { next = m.alloc.next + 1 };
        tables = clear m.tables t;
      })
unfolding allocate_page_table
allocate_page_table-eq offset m m' t ready e =
    elim (Option-cases (get_elem? (frames_of ready.regions) m.alloc.next)) [
      | inl empty ↦
          absurd (cc (rw (allocate_frame-run m.alloc ready.regions ready.readable, empty) at e))
      | inr (f, at) ↦
          let low =
            Origin-IsFrame f ready.regions ready.paged
              (frames_of-Origin ready.regions m.alloc.next f ready.disjoint at) in
          let page =
            mapped_page offset f (record (m.alloc) { next = m.alloc.next + 1 }) ready.mapped_at
              ready.offset_small low.1 in
          let r =
            settle (f + offset) (rw (allocate_frame-next offset m.alloc f ready at, page) at e) in
          (f, at, r.0, r.1)
    ]
  where
    settled : ℕ → Machine FrameAllocator
    settled x = record m {
      alloc = record (m.alloc) { next = m.alloc.next + 1 };
      tables = clear m.tables x;
    }

    settle :
        (x : ℕ)
        → ◌≡◌ {A = Outcome (ℕ × Machine FrameAllocator)} (ok (x, settled x)) (ok (t, m'))
        → (t ≡ x) × (m' ≡ settled t)
    settle x h = (cc, cc)

abbrev pub advanced : FrameAllocator → FrameAllocator
advanced a = record a { next = a.next + 1 }

pub advanced-IsReady :
    (offset : ℕ) (a : FrameAllocator) → IsReady offset a → IsReady offset (advanced a)
advanced-IsReady offset a r = record {
  regions = r.regions;
  readable = r.readable;
  few = r.few;
  disjoint = r.disjoint;
  paged = r.paged;
  mapped_at = r.mapped_at;
  offset_small = r.offset_small;
}

pub advanced-fewer :
    (offset : ℕ) (a : FrameAllocator) (x : ℕ)
    → IsReserved offset (advanced a) x
    → IsReserved offset a x
advanced-fewer offset a x r = record {
  regions = r.regions;
  readable = r.readable;
  index = r.index;
  frame = r.frame;
  to_come = omega (arith, r.to_come);
  at = r.at;
  table = r.table;
}

-- Taking a frame leaves the tables sound.
pub taken-IsSound :
    (o root : ℕ) (m : Machine FrameAllocator)
    → IsSound (frame_pool o) o root m
    → IsSound (frame_pool o) o root (record m { alloc = advanced m.alloc })
taken-IsSound o root m s = record {
  ready = advanced-IsReady o m.alloc s.ready;
  tree = s.tree;
  apart = λ q t hq e reserved. s.apart q t hq e (advanced-fewer o m.alloc t reserved);
}

advanced-taken :
    (offset : ℕ) (a : FrameAllocator) (f : ℕ) (ready : IsReady offset a)
    → get_elem? (frames_of ready.regions) a.next ≡ some f
    → ¬ IsReserved offset (advanced a) (f + offset)
advanced-taken offset a f ready at r = omega (
  arith,
  r.to_come,
  frames_of-distinct ready.regions r.index a.next f ready.disjoint
      (ap (λ rs. get_elem? (frames_of rs) r.index) same_regions ∙ r.at ∙ ap some same_frame) at,
)
  where
    same_regions : ready.regions ≡ r.regions
    same_regions = cc (ready.readable, r.readable)

    same_frame : r.frame ≡ f
    same_frame = omega (arith, r.table)

-- The frame allocator keeps what the page tables ask of an allocator: each table is a new one,
-- cleared, at the address that its entry leads to.
pub frame_allocator-IsAllocator :
    (offset : ℕ) → IsAllocator (frame_pool offset) offset frame_allocator
frame_allocator-IsAllocator offset = record { grants = λ m m' t ready e. grant m m' t ready e }
  where
    grant :
        (m m' : Machine FrameAllocator) (t : ℕ)
        → IsReady offset m.alloc
        → allocate_page_table m ≡ ok (t, m')
        → IsGrant (frame_pool offset) offset m m' t
    grant m m' t ready e =
        let (f, at, table, after) = allocate_page_table-eq offset m m' t ready e in
        let low =
          Origin-IsFrame f ready.regions ready.paged
            (frames_of-Origin ready.regions m.alloc.next f ready.disjoint at) in
        let small = ready.offset_small in
        let alloc_after = ap (λ (x : Machine FrameAllocator). x.alloc) after in
        record {
          ready = subst (IsReady offset) (sym alloc_after) (advanced-IsReady offset m.alloc ready);
          reserved = record {
            regions = ready.regions;
            readable = ready.readable;
            index = m.alloc.next;
            frame = f;
            to_come = omega arith;
            at = at;
            table = table;
          };
          taken = λ r.
              advanced-taken offset m.alloc f ready at
                (subst₂ (IsReserved offset) alloc_after table r);
          fewer = λ x r.
              advanced-fewer offset m.alloc x (subst (λ a. IsReserved offset a x) alloc_after r);
          cleared = ap (λ (x : Machine FrameAllocator). x.tables) after;
          frame = omega arith;
          back = omega arith;
        }

empty_root :
    (tables : ℕ → ℕ → ℕ) (offset root : ℕ) (i : ℕ) (p : List ℕ)
    → follow (clear tables root) offset root (i ∷ p) ≡ none
empty_root tables offset root i p = rw (==_self root, empty-is_present)

-- A table that a ready frame allocator hands out, taken as the root, is a sound tree of tables.
pub allocate_page_table-IsSound :
    (offset : ℕ) (m m' : Machine FrameAllocator) (root : ℕ)
    → IsReady offset m.alloc
    → allocate_page_table m ≡ ok (root, m')
    → IsSound (frame_pool offset) offset root m'
allocate_page_table-IsSound offset m m' root ready e = record {
  ready = g.ready;
  tree = record { unique = λ p q t hp hq ep eq. only p t ep ∙ sym (only q t eq) };
  apart = λ q t hq eq reserved.
      g.taken (subst (IsReserved offset m'.alloc) (sym (root_only q t eq)) reserved);
}
  where
    g : IsGrant (frame_pool offset) offset m m' root
    g = (frame_allocator-IsAllocator offset).grants m m' root ready e

    only : (p : List ℕ) (t : ℕ) → follow m'.tables offset root p ≡ some t → p ≡ []
    only [] t h = refl
    only (i ∷ p) t h =
        let lost : ◌≡◌ {A = Option ℕ} none (some t) =
          sym (empty_root m.tables offset root i p)
          ∙ subst (λ x. follow x offset root (i ∷ p) ≡ some t) g.cleared h in
        absurd (cc)

    root_only : (p : List ℕ) (t : ℕ) → follow m'.tables offset root p ≡ some t → root ≡ t
    root_only [] t h = cc
    root_only (i ∷ p) t h = absurd (omega (arith, ap length (only (i ∷ p) t h)))
