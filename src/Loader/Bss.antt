-- ===== src/Loader/Bss.antt =====
-- loader/src/main.rs: the page that holds the end of a segment's file part.
use ferr_os.Base.{
  ℕ, ◌+◌, ◌-◌, ◌%◌, ◌^◌, ◌≤◌, ◌<◌, ◌≡◌, refl, sym, ap, ◌∙◌, inl, inr, true, false, ◌&&◌, Option,
  none, some, List, [], ◌∷◌, arith, ltb, leb, ◌==◌, if◌then◌else◌, Bool-cases, get_elem?, All,
  Outcome, ok, err, panic, hang, expect,
}
use mathlib.Core.Path.{subst}
use ferr_os.Base.Io.{io-eq-ok}
use ferr_os.Base.{expect-eq-ok}
use ferr_os.Addr.{VirtAddr}
use ferr_os.Addr.Laws.{IsCanonical}
use ferr_os.PageTable.{remapping, remap_address, align_down_u64}
use ferr_os.PageTable.Mapping.{IsSound}
use ferr_os.PageTable.Translate.{page_frame}
use ferr_os.PageTable.Pages.{map_address_impl_lem}
use ferr_os.FrameAllocator.{FrameAllocator, frame_allocator, frames_of, allocate_frame}
use ferr_os.FrameAllocator.Supply.{
  frame_pool, IsReady, Origin-IsFrame, allocate_frame-run, allocate_frame-next,
}
use ferr_os.FrameAllocator.Frames.{frames_of-Origin}
use ferr_os.FrameAllocator.Tables.{frame_allocator-IsAllocator, advanced, taken-IsSound}
use ferr_os.Loader.Kernel.{
  MappedEntry, Loading, took, take_frame, remap_page, remap_pages, split_last_page,
}
use ferr_os.Loader.Kernel.{copied, filled}
use ferr_os.Loader.Segments.{stored-eq-ok}

abbrev pub Sound : ℕ → Loading → Type 0
Sound root s = IsSound (frame_pool 0) 0 root s.machine

abbrev pub frame_of : ℕ → VirtAddr → Loading → Option ℕ
frame_of root v s = page_frame s.machine.tables 0 root v

-- The frame of a page, where the recorded pages of one frame are led to another.
unfoldable pub redirected : ℕ → ℕ → VirtAddr → List MappedEntry → Option ℕ → Option ℕ
redirected from frame v [] old = old
redirected from frame v (entry ∷ entries) old =
    redirected from frame v entries
      (if (entry.frame == from) && (v == entry.page) then some frame else old)

-- What remapping pages does to the tables and to memory.
record IsRedirected (root from frame : ℕ) (entries : List MappedEntry) (s s' : Loading)
    : Type 0 where
  sound : Sound root s'
  pages :
      (v : VirtAddr)
      → IsCanonical v
      → v % 4096 ≡ 0
      → frame_of root v s' ≡ redirected from frame v entries (frame_of root v s)
  bytes : s'.bytes ≡ s.bytes

remap_page-pages :
    (root frame : ℕ) (entry : MappedEntry) (s s' : Loading)
    → Sound root s
    → IsCanonical entry.page
    → frame < 2 ^ 46
    → remap_page root entry.page frame s ≡ ok (tt, s')
    → Sound root s'
      × ((v : VirtAddr)
          → IsCanonical v
          → v % 4096 ≡ 0
          → frame_of root v s' ≡ (if v == entry.page then some frame else frame_of root v s))
      × (s'.bytes ≡ s.bytes)
unfolding remap_address
remap_page-pages root frame entry s s' sound canonical small e =
    let (m, mapped, next) =
      stored-eq-ok s s' (expect (remap_address frame_allocator root entry.page frame s.machine))
        e in
    let (sound', pages) =
      map_address_impl_lem (frame_pool 0) 0 root frame_allocator (frame_allocator-IsAllocator 0)
        s.machine m entry.page frame remapping sound canonical (omega arith)
        (expect-eq-ok _ mapped) in
    (rw next sound', rw next pages, ap (λ x. x.bytes) next)

remap_pages_lem :
    (root from frame : ℕ) (entries : List MappedEntry) (s s' : Loading)
    → Sound root s
    → All (λ entry. IsCanonical entry.page) entries
    → frame < 2 ^ 46
    → remap_pages root from frame entries s ≡ ok (tt, s')
    → IsRedirected root from frame entries s s'
unfolding remap_pages redirected
remap_pages_lem root from frame [] s s' sound _ small e =
    let same : s' ≡ s = cc e in
    record {
      sound = rw same sound;
      pages = λ v _ _. ap (frame_of root v) same;
      bytes = ap (λ x. x.bytes) same;
    }
remap_pages_lem root from frame (entry ∷ entries) s s' sound (canonical, others) small e =
    let (_, s1, first, rest) =
      io-eq-ok (if entry.frame == from then remap_page root entry.page frame else λ x. ok (tt, x)) _
        s e in
    elim (Bool-cases (entry.frame == from)) [
      | inl hit ↦
          let (sound1, pages1, bytes1) =
            remap_page-pages root frame entry s s1 sound canonical small (rw hit at first) in
          let next = remap_pages_lem root from frame entries s1 s' sound1 others small rest in
          record {
            sound = next.sound;
            pages = λ v c p.
                next.pages v c p ∙ ap (redirected from frame v entries) (rw hit (pages1 v c p));
            bytes = next.bytes ∙ bytes1;
          }
      | inr other ↦
          let same : s1 ≡ s = cc (rw other at first) in
          let next =
            remap_pages_lem root from frame entries s1 s' (rw same sound) others small rest in
          record {
            sound = next.sound;
            pages = λ v c p.
                next.pages v c p ∙ ap (redirected from frame v entries) (rw (other, same) refl);
            bytes = next.bytes ∙ ap (λ x. x.bytes) same;
          }
    ]

took-eq-ok :
    (s s' : Loading) (frame : ℕ) (r : Outcome (Option ℕ × FrameAllocator))
    → took s r ≡ ok (frame, s')
    → (alloc : FrameAllocator) × (r ≡ ok (some frame, alloc))
      × (s' ≡ record s { machine = record (s.machine) { alloc = alloc } })
took-eq-ok s s' frame (ok (some f, alloc)) e =
    let found : f ≡ frame = cc e in
    let next : record s { machine = record (s.machine) { alloc = alloc } } ≡ s' = cc e in
    (alloc, ap (λ x. ok (some x, alloc)) found, sym next)
took-eq-ok s s' frame (ok (none, alloc)) e = cc
took-eq-ok s s' frame (err message) e = cc
took-eq-ok s s' frame panic e = cc
took-eq-ok s s' frame hang e = cc

split_end :
    (from frame inside : ℕ) (s s' : Loading) (bytes : ℕ → ℕ)
    → s.bytes ≡ bytes
    → filled (frame + inside) 0 (4096 - inside) (copied from frame inside s) ≡ s'
    → ((k : ℕ) → k < inside → s'.bytes (frame + k) ≡ bytes (from + k))
      × ((k : ℕ) → inside ≤ k → k < 4096 → s'.bytes (frame + k) ≡ 0)
split_end from frame inside s s' bytes same e = (
  λ k below.
      let before : leb (frame + inside) (frame + k) ≡ false = ground arith in
      let start : leb frame (frame + k) ≡ true = ground arith in
      let stop : ltb (frame + k) (frame + inside) ≡ true = ground arith in
      let place : from + (frame + k - frame) ≡ from + k = omega arith in
      ap (λ x. x.bytes (frame + k)) (sym e) ∙ rw (before, start, stop, same, place) refl,
  λ k beyond within.
      let start : leb (frame + inside) (frame + k) ≡ true = ground arith in
      let stop : ltb (frame + k) (frame + inside + (4096 - inside)) ≡ true = ground arith in
      ap (λ x. x.bytes (frame + k)) (sym e) ∙ rw (start, stop) refl,
)

ended :
    (s s' : Loading) (frame inside from : ℕ)
    → filled (frame + inside) 0 (4096 - inside) (copied from frame inside s) ≡ s'
    → s.machine ≡ s'.machine
ended s s' frame inside from e = ap (λ x. x.machine) e

-- The frame that a ready allocator gives.
next_frame :
    (a after : FrameAllocator) (frame : ℕ)
    → IsReady 0 a
    → allocate_frame a ≡ ok (some frame, after)
    → (after ≡ advanced a) × (frame < 2 ^ 46)
next_frame a after frame ready e =
    let at : get_elem? (frames_of ready.regions) a.next ≡ some frame =
      cc (e, allocate_frame-run a ready.regions ready.readable) in
    (
      cc (e, allocate_frame-next 0 a frame ready at),
      (Origin-IsFrame frame ready.regions ready.paged
          (frames_of-Origin ready.regions a.next frame ready.disjoint at)).1,
    )

-- In a sound tree of tables, where the recorded pages are canonical, and the page that the
-- file's part shares with the zeroed part is split, and this succeeds: the new frame is the
-- allocator's next one. Each recorded page of the old frame is led to the new one, all other
-- pages are as they were, and the tree is sound. The new frame has the first `inside` bytes of
-- the old one, and zeros from there to the end of a page.
pub split_last_page_lem :
    (root phys_end inside : ℕ) (s s' : Loading)
    → Sound root s
    → All (λ entry. IsCanonical entry.page) s.mapped_frames
    → split_last_page root phys_end inside s ≡ ok (tt, s')
    → (frame : ℕ) × (allocate_frame s.machine.alloc ≡ ok (some frame, advanced s.machine.alloc))
      × Sound root s'
      × ((v : VirtAddr)
          → IsCanonical v
          → v % 4096 ≡ 0
          → frame_of root v s'
            ≡ redirected (align_down_u64 phys_end) frame v s.mapped_frames (frame_of root v s))
      × ((k : ℕ) → k < inside → s'.bytes (frame + k) ≡ s.bytes (align_down_u64 phys_end + k))
      × ((k : ℕ) → inside ≤ k → k < 4096 → s'.bytes (frame + k) ≡ 0)
unfolding split_last_page
split_last_page_lem root phys_end inside s s' sound canonical e =
    let (frame, s1, first, e1) = io-eq-ok take_frame _ s e in
    let (alloc, taken, next) = took-eq-ok s s1 frame (allocate_frame s.machine.alloc) first in
    let (moved, low) = next_frame s.machine.alloc alloc frame sound.ready taken in
    let advanced_ : s1
        ≡ record s { machine = record (s.machine) { alloc = advanced s.machine.alloc } } =
      rw moved at next in
    let (_, s2, second, e2) =
      io-eq-ok (remap_pages root (align_down_u64 phys_end) frame s1.mapped_frames) _ s1 e1 in
    let frames : s1.mapped_frames ≡ s.mapped_frames = ap (λ x. x.mapped_frames) advanced_ in
    let went =
      remap_pages_lem root (align_down_u64 phys_end) frame s.mapped_frames s1 s2
        (subst (Sound root) (sym advanced_) (taken-IsSound 0 root s.machine sound)) canonical low
        (rw frames at second) in
    let (copied_, cleared) =
      split_end (align_down_u64 phys_end) frame inside s2 s' s.bytes
        (went.bytes ∙ ap (λ x. x.bytes) next) (cc e2) in
    let done = ended s2 s' frame inside (align_down_u64 phys_end) (cc e2) in
    (
      frame,
      taken ∙ ap (λ a. ok (some frame, a)) moved,
      subst (λ m. IsSound (frame_pool 0) 0 root m) done went.sound,
      λ v c p.
          ap (λ m. page_frame m.tables 0 root v) (sym done)
          ∙ went.pages v c p
          ∙ ap
              (λ x.
                redirected (align_down_u64 phys_end) frame v s.mapped_frames (frame_of root v x))
              advanced_,
      copied_,
      cleared,
    )
