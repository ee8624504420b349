-- ===== src/Loader/Segments.antt =====
-- loader/src/main.rs: the pages of the kernel's segments.
use ferr_os.Base.{
  ℕ, zero, suc, ◌+◌, ◌-◌, ◌*◌, ◌/◌, ◌%◌, ◌^◌, ◌<◌, bit_and, ◌≡◌, refl, ap, ◌∙◌, inl, inr, true, [],
  ◌∷◌, ◌++◌, arith, ltb, ◌!=◌, lt→ltb, Bool-cases, length, u64, Outcome, ok, err, panic, hang,
  expect,
}
use ferr_os.Base.Io.{io-eq-ok}
use ferr_os.Base.Bits.{and_field}
use ferr_os.Addr.{VirtAddr, new, offset, bitand}
use ferr_os.Addr.Laws.{new-IsCanonical, offset_lem}
use ferr_os.PageTable.{Machine, map_address, align_down, align_down_u64}
use ferr_os.PageTable.Mapping.{IsSound}
use ferr_os.PageTable.Window.{map_window, map_window_lem}
use ferr_os.FrameAllocator.{FrameAllocator, frame_allocator}
use ferr_os.FrameAllocator.Supply.{frame_pool}
use ferr_os.FrameAllocator.Tables.{frame_allocator-IsAllocator}
use ferr_os.Loader.Kernel.{
  ProgramHeader, Loading, lift, stored, record_mapping, map_page, map_file_pages, file_pages,
  map_file,
}
use ferr_os.Loader.Mapped.{HasWindow}

lift-eq-ok :
    {A : Type 0} (r : Outcome A) (s s' : Loading) (a : A)
    → lift r s ≡ ok (a, s')
    → (r ≡ ok a) × (s ≡ s')
lift-eq-ok (ok x) s s' a e = (cc e, cc e)
lift-eq-ok (err message) s s' a e = cc
lift-eq-ok panic s s' a e = cc
lift-eq-ok hang s s' a e = cc

pub stored-eq-ok :
    (s s' : Loading) (r : Outcome (Machine FrameAllocator))
    → stored s r ≡ ok (tt, s')
    → (m : Machine FrameAllocator) × (r ≡ ok m) × (s' ≡ record s { machine = m })
stored-eq-ok s s' (ok m) e = (m, refl, (cc e))
stored-eq-ok s s' (err message) e = cc
stored-eq-ok s s' panic e = cc
stored-eq-ok s s' hang e = cc

record_mapping-eq-ok :
    (page : VirtAddr) (frame : ℕ) (s s' : Loading)
    → record_mapping page frame s ≡ ok (tt, s')
    → s'.machine ≡ s.machine
unfolding record_mapping
record_mapping-eq-ok page frame s s' e = elim (Bool-cases (ltb (length s.mapped_frames) 100)) [
  | inl room ↦
      let gone : s' ≡ record s {
        mapped_frames = s.mapped_frames ++ record { page = page; frame = frame } ∷ [];
      } =
        cc (rw room at e) in
      ap (λ x. x.machine) gone
  | inr full ↦ absurd (cc (rw full at e))
]

-- The loop over the pages of a segment maps as the loop over a window does.
map_file_pages-window :
    (root rounds i virt_start phys_start : ℕ) (s s' : Loading)
    → map_file_pages root rounds i virt_start phys_start s ≡ ok (tt, s')
    → map_window frame_allocator root 0
        (λ k. offset virt_start (u64 (k * 4096)))
        (λ k. u64 (phys_start + u64 (k * 4096)))
        rounds
        i
        s.machine
      ≡ ok s'.machine
unfolding map_file_pages map_window map_address
map_file_pages-window root zero i virt_start phys_start s s' e =
    let same : s ≡ s' = cc e in ap (λ x. ok x.machine) same
map_file_pages-window root (suc rounds) i virt_start phys_start s s' e =
    let (virt, s1, first, e1) =
      io-eq-ok (lift (expect (offset virt_start (u64 (i * 4096))))) _ s e in
    let (there, same) = lift-eq-ok _ s s1 virt first in
    let (_, s2, second, e2) =
      io-eq-ok (map_page root virt (u64 (phys_start + u64 (i * 4096)))) _ s1 e1 in
    let (m2, mapped, next) =
      stored-eq-ok s1 s2
        (expect
          (map_address frame_allocator root virt (u64 (phys_start + u64 (i * 4096))) s1.machine))
        second in
    let (_, s3, third, e3) =
      io-eq-ok (record_mapping virt (u64 (phys_start + u64 (i * 4096)))) _ s2 e2 in
    let machine = record_mapping-eq-ok virt _ s2 s3 third in
    let window = map_file_pages-window root rounds (i + 1) virt_start phys_start s3 s' e3 in
    let here_ : s3.machine ≡ m2 = machine ∙ ap (λ x. x.machine) next in
    rw (there, ap (λ x. x.machine) same, mapped) (rw here_ at window)

align_down_lem :
    (a : ℕ) → a < 2 ^ 47 → (align_down a ≡ a / 4096 * 4096) × (align_down_u64 a ≡ a / 4096 * 4096)
unfolding align_down align_down_u64 bitand new
align_down_lem a h =
    let masked : bit_and a 0xffff_ffff_ffff_f000 ≡ a / 4096 * 4096 =
      omega (arith, and_field 52 12 a) in
    (ap new masked ∙ (new-IsCanonical (a / 4096 * 4096)).2 (omega arith, inl (omega arith)), masked)

page_at :
    (first k : ℕ)
    → first + k * 4096 < 2 ^ 47
    → offset first (u64 (k * 4096)) ≡ ok (first + k * 4096)
page_at first k h =
    let small : u64 (k * 4096) ≡ k * 4096 = omega arith in
    rw small (
      offset_lem first (k * 4096)
      ∙ rw (lt→ltb (first + k * 4096) (2 ^ 64) (omega arith))
          (ap ok ((new-IsCanonical (first + k * 4096)).2 (omega arith, inl h))))

-- In a sound tree of tables, mapping the part of a segment that is in the file, with bytes and
-- its address and its place in memory congruent modulo 4096 and below 2^46, where it succeeds,
-- leads the pages from that of its first byte to that of its last to the frames that hold it. It
-- leaves the other pages as they were, and keeps the tree sound.
pub map_file_lem :
    (root phys_start : ℕ) (header : ProgramHeader) (s s' : Loading)
    → header.virtual_addr + header.file_size < 2 ^ 46
    → phys_start + header.file_size < 2 ^ 46
    → header.virtual_addr % 4096 ≡ phys_start % 4096
    → 0 < header.file_size
    → IsSound (frame_pool 0) 0 root s.machine
    → map_file root header header.virtual_addr phys_start s ≡ ok (tt, s')
    → HasWindow root
        (header.virtual_addr / 4096 * 4096)
        (phys_start / 4096 * 4096)
        ((header.virtual_addr + header.file_size - 1) / 4096 - header.virtual_addr / 4096 + 1)
        s.machine
        s'.machine
unfolding map_file
map_file_lem root phys_start header s s' small low congruent some_bytes sound e =
    map_window_lem (frame_pool 0) 0 root frame_allocator (frame_allocator-IsAllocator 0) first
      frames (omega arith) (λ k. offset first (u64 (k * 4096))) (λ k. u64 (frames + u64 (k * 4096)))
      rounds 0 s.machine s'.machine (λ k lo hi. (page_at first k (omega arith), omega arith))
      (λ k hi. (omega arith, inl (omega arith))) (omega arith) sound run
  where
    first : ℕ
    first = header.virtual_addr / 4096 * 4096

    frames : ℕ
    frames = phys_start / 4096 * 4096

    rounds : ℕ
    rounds = (header.virtual_addr + header.file_size - 1) / 4096 - header.virtual_addr / 4096 + 1

    counted : file_pages root header.file_size header.virtual_addr ≡ rounds
    counted = omega (arith, (align_down_lem header.virtual_addr (omega arith)).0)

    not_empty : (header.file_size != 0) ≡ true
    not_empty = ground arith

    run :
        map_window frame_allocator root 0
          (λ k. offset first (u64 (k * 4096)))
          (λ k. u64 (frames + u64 (k * 4096)))
          rounds
          0
          s.machine
        ≡ ok s'.machine
    run = map_file_pages-window root rounds 0 first frames s s' (
        rw
          (
            not_empty,
            counted,
            (align_down_lem header.virtual_addr (omega arith)).0,
            (align_down_lem phys_start (omega arith)).1,
          )
          at e)
