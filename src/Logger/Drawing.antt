-- ===== src/Logger/Drawing.antt =====
-- shared_lib/src/logger.rs: the bytes that drawing changes.
use ferr_os.Base.{
  ℕ, zero, suc, ◌+◌, ◌*◌, ◌^◌, ◌≤◌, ◌<◌, bit_and, ◌≡◌, refl, ap, ◌∙◌, true, Option, some, List, [],
  ◌∷◌, arith, leb, ◌==◌, if◌then◌else◌, length, get_elem?, All,
}
use native.Mathlib.Nat.{mul-le-mul_right}
use ferr_os.Base.Io.{◌>>◌}
use ferr_os.Base.Io.{Gives, gives, Gives-bind, Gives-map}
use ferr_os.Logger.{
  PixelFormat, FrameBufferInfo, Logger, Draw, color_of, write_pixel, write_bits, write_8x8, char_at,
  draw_glyph, draw_char, draw_row, draw_rows, draw_char_buffer,
}

abbrev with_fb : Logger → (ℕ → ℕ) → Logger
with_fb l fb = record l { fb = fb }

-- Only bytes of the frame buffer differ.
abbrev pub Drawn : Logger → Unit {0} → Logger → Type 0
Drawn l _ l' = l' ≡ record l { fb = l'.fb }

pub Drawn-trans : (l l1 l2 : Logger) → Drawn l tt l1 → Drawn l1 tt l2 → Drawn l tt l2
Drawn-trans l l1 l2 p q = q ∙ ap (λ x. with_fb x l2.fb) p

pub Drawn-then :
    (m k : Draw) (l : Logger)
    → Gives (Drawn l) (m l)
    → ((l1 : Logger) → Drawn l tt l1 → Gives (Drawn l1) (k l1))
    → Gives (Drawn l) ((m >> k) l)
Drawn-then m k l h rest =
    Gives-bind m (λ _. k) l h λ _ l1 p. Gives-map (rest l1 p) λ _ l2 q. Drawn-trans l l1 l2 p q

-- The format has a colour for each intensity.
abbrev pub IsSupported : PixelFormat → Type 0
IsSupported format = (i : ℕ) → (color : List ℕ) × (color_of format i ≡ some color)

-- The pixels of a row from `x` on for `count` fit.
abbrev Fits : FrameBufferInfo → ℕ → ℕ → Type 0
Fits info x y = (y * info.stride + x) * 4 ≤ info.size

row_fits :
    (y n x stride size : ℕ)
    → x + 8 ≤ stride
    → (y + suc n) * stride * 4 ≤ size
    → (y * stride + (x + 8)) * 4 ≤ size
row_fits y n x stride size wide room =
    let split : (y + suc n) * stride ≡ y * stride + suc n * stride = grind arith in
    let one : stride ≤ suc n * stride = grind arith in omega (arith, split, one)

next_fits :
    (y n stride size : ℕ) → (y + suc n) * stride * 4 ≤ size → (y + 1 + n) * stride * 4 ≤ size
next_fits y n stride size room = let same : y + 1 + n ≡ y + suc n = omega arith in rw same room

module _ (info : FrameBufferInfo) (supported : IsSupported info.pixel_format) where
  write_pixel-Drawn :
      (x y i : ℕ) (l : Logger)
      → l.fb_info ≡ info
      → Fits info (x + 1) y
      → Gives (Drawn l) (write_pixel x y i l)
  unfolding write_pixel
  write_pixel-Drawn x y i l e room =
      let (color, c) = supported i in
      let inside : leb ((y * info.stride + x) * 4 + 4) info.size ≡ true = ground arith in
      rw (e, c, inside) (gives refl)

  write_bits-Drawn :
      (left bit byte x y : ℕ) (l : Logger)
      → l.fb_info ≡ info
      → Fits info (x + (bit + left)) y
      → Gives (Drawn l) (write_bits left bit byte x y l)
  unfolding write_bits
  write_bits-Drawn zero bit byte x y l e room = gives refl
  write_bits-Drawn (suc left) bit byte x y l e room =
      Drawn-then (write_pixel (x + bit) y (if bit_and byte (2 ^ bit) == 0 then 0 else 255))
        (write_bits left (bit + 1) byte x y) l (write_pixel-Drawn (x + bit) y _ l e (omega arith))
        λ l1 p.
          write_bits-Drawn left (bit + 1) byte x y l1 (ap (λ k. k.fb_info) p ∙ e) (omega arith)

  pub write_8x8-Drawn :
      (rendered : List ℕ) (x y : ℕ) (l : Logger)
      → l.fb_info ≡ info
      → x + 8 ≤ info.stride
      → (y + length rendered) * info.stride * 4 ≤ info.size
      → Gives (Drawn l) (write_8x8 rendered x y l)
  unfolding write_8x8
  write_8x8-Drawn [] x y l e wide room = gives refl
  write_8x8-Drawn (byte ∷ rendered) x y l e wide room =
      Drawn-then (write_bits 8 0 byte x y) (write_8x8 rendered x (y + 1)) l
        (write_bits-Drawn 8 0 byte x y l e
          (row_fits y (length rendered) x info.stride info.size wide room))
        λ l1 p.
          write_8x8-Drawn rendered x (y + 1) l1 (ap (λ k. k.fb_info) p ∙ e) wide
            (next_fits y (length rendered) info.stride info.size room)

char_at-some :
    (buffer : List (List ℕ)) (y x : ℕ) (row : List ℕ) (c : ℕ)
    → get_elem? buffer y ≡ some row
    → get_elem? row x ≡ some c
    → char_at buffer y x ≡ some c
unfolding char_at
char_at-some buffer y x row c there at = rw (there, char_at) at

-- The font has eight rows for a character.
abbrev pub HasGlyph : (ℕ → Option (List ℕ)) → ℕ → Type 0
HasGlyph font c = (rendered : List ℕ) × (font c ≡ some rendered) × (length rendered ≡ 8)

pub All-get :
    {A : Type 0} {P : A → Type 0} (row : List A) (i : ℕ)
    → All P row
    → i < length row
    → (c : A) × (get_elem? row i ≡ some c) × P c
All-get [] i h below = elim below [ ]
All-get (c ∷ row) zero h below = (c, refl, h.0)
All-get (c ∷ row) (suc i) h below = All-get row i h.1 (omega arith)

-- A row of the text: as wide as the text is, with a glyph for each character.
abbrev pub IsRow : (ℕ → Option (List ℕ)) → ℕ → List ℕ → Type 0
IsRow font width row = (length row ≡ width) × All (HasGlyph font) row

-- The lines of the text and the cells of a line fit the frame buffer.
abbrev pub HasRoom : FrameBufferInfo → ℕ → ℕ → Type 0
HasRoom info width height =
    (1 + width * 8 ≤ info.stride) × ((1 + height * 8) * info.stride * 4 ≤ info.size)

cell_fits :
    (y height stride size : ℕ)
    → y < height
    → (1 + height * 8) * stride * 4 ≤ size
    → (1 + y * 8 + 8) * stride * 4 ≤ size
cell_fits y height stride size below room =
    let less : (1 + y * 8 + 8) * stride ≤ (1 + height * 8) * stride =
      mul-le-mul_right stride (omega arith) in
    omega (arith, less)

module _ (font : ℕ → Option (List ℕ)) (info : FrameBufferInfo)
    (supported : IsSupported info.pixel_format) (width height : ℕ)
    (room : HasRoom info width height) where
  pub draw_glyph-Drawn :
      (rendered : Option (List ℕ)) (g : List ℕ) (x y : ℕ) (l : Logger)
      → rendered ≡ some g
      → length g ≡ 8
      → x < width
      → y < height
      → l.fb_info ≡ info
      → Gives (Drawn l) (draw_glyph font rendered x y l)
  draw_glyph-Drawn rendered g x y l there rows inside below e = rw there (
      write_8x8-Drawn info supported g (1 + x * 8) (1 + y * 8) l e (omega arith)
        (rw rows (cell_fits y height info.stride info.size below room.1)))

  draw_row-Drawn :
      (left x y : ℕ) (row : List ℕ) (l : Logger)
      → x + left ≡ width
      → y < height
      → get_elem? l.char_buffer y ≡ some row
      → IsRow font width row
      → l.fb_info ≡ info
      → Gives (Drawn l) (draw_row font left x y l)
  unfolding draw_row
  draw_row-Drawn zero x y row l sum below there ok_row e = gives refl
  draw_row-Drawn (suc left) x y row l sum below there ok_row e =
      let (c, at, (g, glyph, rows)) = All-get row x ok_row.1 (omega arith) in
      rw (char_at-some l.char_buffer y x row c there at) (
        Drawn-then (draw_char font (some c) x y) (draw_row font left (x + 1) y) l
          (draw_glyph-Drawn (font c) g x y l glyph rows (omega arith) below e)
          λ l1 p.
            draw_row-Drawn left (x + 1) y row l1 (omega arith) below
              (ap (λ k. get_elem? k.char_buffer y) p ∙ there) ok_row (ap (λ k. k.fb_info) p ∙ e))

  -- The rows of the text from `y` on.
  draw_rows-Drawn :
      (left y : ℕ) (l : Logger)
      → y + left ≡ height
      → l.char_buffer_width ≡ width
      → ((k : ℕ)
          → k < height
          → (row : List ℕ) × (get_elem? l.char_buffer k ≡ some row) × IsRow font width row)
      → l.fb_info ≡ info
      → Gives (Drawn l) (draw_rows font left y l)
  unfolding draw_rows
  draw_rows-Drawn zero y l sum w rows e = gives refl
  draw_rows-Drawn (suc left) y l sum w rows e =
      let (row, there, ok_row) = rows y (omega arith) in
      Drawn-then (draw_row font l.char_buffer_width 0 y) (draw_rows font left (y + 1)) l
        (draw_row-Drawn l.char_buffer_width 0 y row l (omega (arith, w)) (omega arith) there ok_row
          e)
        λ l1 p.
          draw_rows-Drawn left (y + 1) l1 (omega arith) (ap (λ k. k.char_buffer_width) p ∙ w)
            (λ k below.
              let (row', there', ok_row') = rows k below in
              (row', ap (λ n. get_elem? n.char_buffer k) p ∙ there', ok_row'))
            (ap (λ k. k.fb_info) p ∙ e)

  pub draw_char_buffer-Drawn :
      (l : Logger)
      → l.char_buffer_width ≡ width
      → l.char_buffer_height ≡ height
      → height ≤ length l.char_buffer
      → All (IsRow font width) l.char_buffer
      → l.fb_info ≡ info
      → Gives (Drawn l) (draw_char_buffer font l)
  unfolding draw_char_buffer
  draw_char_buffer-Drawn l w h tall rows e =
      draw_rows-Drawn l.char_buffer_height 0 l (omega (arith, h)) w
        (λ k below. All-get l.char_buffer k rows (omega arith)) e
