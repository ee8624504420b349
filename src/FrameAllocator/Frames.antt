-- ===== src/FrameAllocator/Frames.antt =====
-- The frames that the allocator hands out: each lies in a free region, and no two are the same.
use ferr_os.Base.{
  ℕ, zero, suc, ◌+◌, ◌-◌, ◌*◌, ◌^◌, ◌≤◌, ◌<◌, ◌≡◌, refl, ap, ◌∙◌, ◌⊎◌, inl, inr, true, some, List,
  [], ◌∷◌, ◌++◌, arith, if◌then◌else◌, Bool-cases, length, get_elem?, length-append, All,
}
use ferr_os.FrameAllocator.{is_free, MemoryRegion, step_by, region_frames, frames_of}

abbrev pub region_end : MemoryRegion → ℕ
region_end r = r.addr + 4096 * r.page_count

-- The region lies within 64 bits.
abbrev pub Fits : MemoryRegion → Type 0
Fits r = region_end r < 2 ^ 64

abbrev pub Apart : MemoryRegion → MemoryRegion → Type 0
Apart r s = (region_end r ≤ s.addr) ⊎ (region_end s ≤ r.addr)

-- Regions that fit and do not overlap.
abbrev pub IsMemoryMap : List MemoryRegion → Type 0
IsMemoryMap [] = Unit
IsMemoryMap (r ∷ rs) = Fits r × All (Apart r) rs × IsMemoryMap rs

-- The total size of the free regions, in pages.
abbrev pub free_pages : List MemoryRegion → ℕ
free_pages [] = 0
free_pages (r ∷ rs) = if is_free r.ty then r.page_count + free_pages rs else free_pages rs

region_frames-eq : (r : MemoryRegion) → Fits r → region_frames r ≡ step_by r.page_count r.addr
unfolding region_frames
region_frames-eq r fits = ap (λ n. step_by n r.addr) (omega arith)

length-step_by : (n start : ℕ) → length (step_by n start) ≡ n
unfolding step_by
length-step_by zero start = refl
length-step_by (suc n) start = ap suc (length-step_by n (start + 4096))

get_elem?-step_by :
    (n start i : ℕ) → i < n → get_elem? (step_by n start) i ≡ some (start + 4096 * i)
unfolding step_by
get_elem?-step_by zero start i h = absurd (omega arith)
get_elem?-step_by (suc n) start zero h = ap some (omega arith)
get_elem?-step_by (suc n) start (suc i) h =
    get_elem?-step_by n (start + 4096) i (omega arith) ∙ ap some (omega arith)

-- Every page of the free regions has a frame, and there are no others.
pub length-frames_of :
    (rs : List MemoryRegion) → IsMemoryMap rs → length (frames_of rs) ≡ free_pages rs
unfolding frames_of
length-frames_of [] h = refl
length-frames_of (r ∷ rs) (fits, apart, rest) = elim (Bool-cases (is_free r.ty)) [
  | inl yes_ ↦
      rw (yes_, region_frames-eq r fits)
        (omega (
          arith,
          length-append (step_by r.page_count r.addr) (frames_of rs),
          length-step_by r.page_count r.addr,
          length-frames_of rs rest,
        ))
  | inr no_ ↦ rw no_ (length-frames_of rs rest)
]

-- Where a frame comes from: a page of a free region.
pub data Origin (f : ℕ) : List MemoryRegion → Type 0 where
  here :
      {r : MemoryRegion} {rs : List MemoryRegion} (j : ℕ)
      → is_free r.ty ≡ true
      → j < r.page_count
      → f ≡ r.addr + 4096 * j
      → Origin f (r ∷ rs)
  later : {r : MemoryRegion} {rs : List MemoryRegion} → Origin f rs → Origin f (r ∷ rs)

append-cases :
    {A : Type 0} (xs ys : List A) (i : ℕ) (a : A)
    → get_elem? (xs ++ ys) i ≡ some a
    → ((i < length xs) × (get_elem? xs i ≡ some a))
      ⊎ ((length xs ≤ i) × (get_elem? ys (i - length xs) ≡ some a))
append-cases [] ys i a e = inr (omega arith, ap (get_elem? ys) (omega arith) ∙ e)
append-cases (x ∷ xs) ys zero a e = inl (omega arith, e)
append-cases (x ∷ xs) ys (suc i) a e = elim (append-cases xs ys i a e) [
  | inl (h, g) ↦ inl (omega arith, g)
  | inr (h, g) ↦ inr (omega arith, ap (get_elem? ys) (omega arith) ∙ g)
]

step_by-origin :
    (n start i f : ℕ) → get_elem? (step_by n start) i ≡ some f → (i < n) × (f ≡ start + 4096 * i)
unfolding step_by
step_by-origin zero start i f e = cc
step_by-origin (suc n) start zero f e = (omega arith, ground arith)
step_by-origin (suc n) start (suc i) f e = omega (arith, step_by-origin n (start + 4096) i f e)

-- Where the frame at an index comes from, one region at a time.
frames-cases :
    (r : MemoryRegion) (rs : List MemoryRegion) (i f : ℕ)
    → Fits r
    → get_elem? (frames_of (r ∷ rs)) i ≡ some f
    → ((is_free r.ty ≡ true) × (i < r.page_count) × (f ≡ r.addr + 4096 * i))
      ⊎ ((k : ℕ) × (get_elem? (frames_of rs) k ≡ some f)
          × (i ≡ k + (if is_free r.ty then r.page_count else 0)))
unfolding frames_of
frames-cases r rs i f fits e = elim (Bool-cases (is_free r.ty)) [
  | inl yes_ ↦
      elim (append-cases (step_by r.page_count r.addr) (frames_of rs) i f
        (rw (yes_, region_frames-eq r fits) at e)) [
          | inl (h, g) ↦ let o = step_by-origin r.page_count r.addr i f g in inl (yes_, o.0, o.1)
          | inr (h, g) ↦ inr (
            i - length (step_by r.page_count r.addr),
            g,
            rw yes_ (omega (arith, length-step_by r.page_count r.addr)),
          )
        ]
  | inr no_ ↦ inr (i, rw no_ at e, rw no_ (omega arith))
]

-- A frame that is handed out is a page of a free region.
pub frames_of-Origin :
    (rs : List MemoryRegion) (i f : ℕ)
    → IsMemoryMap rs
    → get_elem? (frames_of rs) i ≡ some f
    → Origin f rs
unfolding frames_of
frames_of-Origin [] i f h e = cc
frames_of-Origin (r ∷ rs) i f (fits, apart, rest) e = elim (frames-cases r rs i f fits e) [
  | inl (free_, in_range, at) ↦ here i free_ in_range at
  | inr (k, at, _) ↦ later (frames_of-Origin rs k f rest at)
]

Origin-Apart :
    (r : MemoryRegion) (rs : List MemoryRegion) (f : ℕ)
    → All (Apart r) rs
    → Origin f rs
    → (f < r.addr) ⊎ (region_end r ≤ f)
Origin-Apart r [] f _ o = elim o [ ]
Origin-Apart r (s ∷ rs) f (apart, _) (here j free_ in_range at) = omega arith
Origin-Apart r (s ∷ rs) f (_, rest) (later o) = Origin-Apart r rs f rest o

-- The same frame is never handed out at two places.
pub frames_of-distinct :
    (rs : List MemoryRegion) (i j f : ℕ)
    → IsMemoryMap rs
    → get_elem? (frames_of rs) i ≡ some f
    → get_elem? (frames_of rs) j ≡ some f
    → i ≡ j
unfolding frames_of
frames_of-distinct [] i j f h e d = cc
frames_of-distinct (r ∷ rs) i j f (fits, apart, rest) e d = elim (frames-cases r rs i f fits e) [
  | inl (free_i, range_i, at_i) ↦ elim (frames-cases r rs j f fits d) [
    | inl (_, range_j, at_j) ↦ omega arith
    | inr (k, at_k, _) ↦ absurd (outside (frames_of-Origin rs k f rest at_k) range_i at_i)
  ]
  | inr (k, at_k, shift_k) ↦ elim (frames-cases r rs j f fits d) [
    | inl (_, range_j, at_j) ↦ absurd (outside (frames_of-Origin rs k f rest at_k) range_j at_j)
    | inr (l, at_l, shift_l) ↦ omega (arith, frames_of-distinct rs k l f rest at_k at_l)
  ]
]
  where
    outside : Origin f rs → {x : ℕ} → x < r.page_count → f ≡ r.addr + 4096 * x → ⊥
    outside o h at = omega (arith, Origin-Apart r rs f apart o)
