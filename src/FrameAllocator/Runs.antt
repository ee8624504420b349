-- ===== src/FrameAllocator/Runs.antt =====
-- shared_lib/src/page_table.rs with shared_lib/src/frame_allocator.rs: the frames that
-- a run of mappings takes.
use ferr_os.Base.{
  ℕ, zero, suc, ◌+◌, ◌*◌, ◌%◌, ◌^◌, ◌≤◌, ◌<◌, ◌≡◌, refl, ◌∙◌, none, arith, ne→not_==, Outcome, ok,
}
use ferr_os.Addr.{VirtAddr}
use ferr_os.Addr.Laws.{IsCanonical}
use ferr_os.PageTable.{Machine, check_frame_is_free}
use ferr_os.PageTable.Mapping.{IsSound}
use ferr_os.PageTable.Translate.{page_frame}
use ferr_os.PageTable.Pages.{map_address_impl_lem}
use ferr_os.PageTable.Window.{map_window}
use ferr_os.FrameAllocator.{FrameAllocator, frame_allocator}
use ferr_os.FrameAllocator.Supply.{frame_pool}
use ferr_os.FrameAllocator.Tables.{frame_allocator-IsAllocator}
use ferr_os.FrameAllocator.Enough.{HasFrames, fewer, map_address_impl-total}

module _ (offset root first frames : ℕ) (aligned : first % 4096 ≡ 0) (aligned' : frames % 4096 ≡ 0)
    (page : ℕ → Outcome VirtAddr) (frame : ℕ → ℕ) where
  -- The pages of the rounds that are left have no frame.
  abbrev pub IsFree : ℕ → ℕ → Machine FrameAllocator → Type 0
  IsFree rounds i m =
      (k : ℕ) → i ≤ k → k < i + rounds → page_frame m.tables offset root (first + k * 4096) ≡ none

  pub map_window-total :
      (rounds i : ℕ) (m : Machine FrameAllocator)
      → ((k : ℕ)
          → i ≤ k
          → k < i + rounds
          → (page k ≡ ok (first + k * 4096)) × (frame k ≡ frames + k * 4096))
      → ((k : ℕ) → k < i + rounds → IsCanonical (first + k * 4096))
      → frames + (i + rounds) * 4096 ≤ 2 ^ 52
      → IsSound (frame_pool offset) offset root m
      → IsFree rounds i m
      → HasFrames offset (3 * rounds) m.alloc
      → (m' : Machine FrameAllocator) × (map_window frame_allocator root offset page frame rounds i
            m
          ≡ ok m')
  unfolding map_window
  map_window-total zero i m pages canonical small s free h = (m, refl)
  map_window-total (suc rounds) i m pages canonical small s free h =
      let virt = first + i * 4096 in
      let (at, at') = pages i (omega arith) (omega arith) in
      let (m1, e, left) =
        map_address_impl-total offset (3 * rounds) root virt (frame i) m (omega arith)
          (omega (arith, at')) s (free i (omega arith) (omega arith))
          (fewer offset (3 * suc rounds) (3 + 3 * rounds) m.alloc (omega arith) h) in
      let (s1, others) =
        map_address_impl_lem (frame_pool offset) offset root frame_allocator
          (frame_allocator-IsAllocator offset) m m1 virt (frame i) check_frame_is_free s
          (canonical i (omega arith)) (omega (arith, at')) e in
      let still : IsFree rounds (i + 1) m1 = λ k lo hi.
        others (first + k * 4096) (canonical k (omega arith)) (omega arith)
        ∙ rw (ne→not_== (first + k * 4096) virt (λ same. omega (arith, same)))
            (free k (omega arith) (omega arith)) in
      let (m', rest) =
        map_window-total rounds (i + 1) m1 (λ k lo hi. pages k (omega arith) (omega arith))
          (λ k hi. canonical k (omega arith)) (omega arith) s1 still left in
      rw (at, e) (m', rest)
