-- ===== src/PageTable/Window.antt =====
-- The loops that map a run of pages, one after the other: loader/src/main.rs and src/xsdt.rs.
use ferr_os.Base.{
  ℕ, zero, suc, ◌+◌, ◌-◌, ◌*◌, ◌%◌, ◌^◌, ◌≤◌, ◌<◌, ◌≡◌, sym, ap, ◌∙◌, ◌&&◌, Option, some, arith,
  ltb, leb, ◌==◌, if◌then◌else◌, Outcome, ok, ◌>>=◌, expect,
}
use ferr_os.Base.{>>=-eq-ok, expect-eq-ok}
use mathlib.Core.Path.{subst}
use ferr_os.Addr.{VirtAddr}
use ferr_os.Addr.Laws.{IsCanonical}
use ferr_os.PageTable.{Machine, PageTablesAllocator, check_frame_is_free, map_address_impl}
use ferr_os.PageTable.Mapping.{IsSound, IsAllocator, Pool}
use ferr_os.PageTable.Translate.{page_frame}
use ferr_os.PageTable.Pages.{map_address_impl_lem}

-- The round `i` maps its page to its frame, and panics if there is no page or no mapping.
unfoldable pub map_window :
    {S : Type 0}
    → PageTablesAllocator S
    → ℕ
    → ℕ
    → (ℕ → Outcome VirtAddr)
    → (ℕ → ℕ)
    → ℕ
    → ℕ
    → Machine S
    → Outcome (Machine S)
map_window allocator l4_table offset page frame zero i m = ok m
map_window allocator l4_table offset page frame (suc rounds) i m = do
  virt ← expect (page i)
  mapped ← expect (map_address_impl allocator l4_table virt (frame i) check_frame_is_free offset m)
  map_window allocator l4_table offset page frame rounds (i + 1) mapped

-- The pages of a window lead to frames in the same order, and the others where they did.
abbrev pub window_frame : ℕ → ℕ → ℕ → ℕ → ℕ → Option ℕ → Option ℕ
window_frame first frames i rounds v other =
    if leb (first + i * 4096) v && ltb v (first + (i + rounds) * 4096)
    then some (frames + (v - first))
    else other

module _ {S : Type 0} (pool : Pool S) (offset root : ℕ) (allocator : PageTablesAllocator S)
    (law : IsAllocator pool offset allocator) (first frames : ℕ) (aligned : first % 4096 ≡ 0)
    (page : ℕ → Outcome VirtAddr) (frame : ℕ → ℕ) where
  step :
      (i rounds v : ℕ) (other : Option ℕ)
      → v % 4096 ≡ 0
      → window_frame first frames
          (i + 1)
          rounds
          v
          (if v == first + i * 4096 then some (frames + i * 4096) else other)
        ≡ window_frame first frames i (suc rounds) v other
  step i rounds v other p = ground (arith, aligned)

  pub map_window_lem :
      (rounds i : ℕ) (m m' : Machine S)
      → ((k : ℕ)
          → i ≤ k
          → k < i + rounds
          → (page k ≡ ok (first + k * 4096)) × (frame k ≡ frames + k * 4096))
      → ((k : ℕ) → k < i + rounds → IsCanonical (first + k * 4096))
      → frames + (i + rounds) * 4096 ≤ 2 ^ 52
      → IsSound pool offset root m
      → map_window allocator root offset page frame rounds i m ≡ ok m'
      → IsSound pool offset root m'
        × ((v : VirtAddr)
            → IsCanonical v
            → v % 4096 ≡ 0
            → page_frame m'.tables offset root v
              ≡ window_frame first frames i rounds v (page_frame m.tables offset root v))
  unfolding map_window
  map_window_lem zero i m m' pages canonical small s e =
      let same : m ≡ m' = cc e in
      (
        subst (IsSound pool offset root) same s,
        λ v c p. ap (λ x. page_frame x.tables offset root v) (sym same) ∙ ground (arith, aligned),
      )
  map_window_lem (suc rounds) i m m' pages canonical small s e =
      let (virt, there, e1) = >>=-eq-ok (expect (page i)) _ e in
      let (m1, mapped, rest) = >>=-eq-ok _ _ e1 in
      let at : virt ≡ first + i * 4096 =
        cc (expect-eq-ok (page i) there, (pages i (omega arith) (omega arith)).0) in
      let (s1, here_) =
        map_address_impl_lem pool offset root allocator law m m1 virt (frame i) check_frame_is_free
          s (subst IsCanonical (sym at) (canonical i (omega arith)))
          (omega (arith, (pages i (omega arith) (omega arith)).1)) (expect-eq-ok _ mapped) in
      let (s2, later) =
        map_window_lem rounds (i + 1) m1 m' (λ k lo hi. pages k (omega arith) (omega arith))
          (λ k hi. canonical k (omega arith)) (omega arith) s1 rest in
      (
        s2,
        λ v c p.
            later v c p
            ∙ ap (window_frame first frames (i + 1) rounds v) (here_ v c p)
            ∙ rw (at, (pages i (omega arith) (omega arith)).1) (step i rounds v _ p),
      )
