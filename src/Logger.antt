-- ===== src/Logger.antt =====
-- shared_lib/src/logger.rs: text on the frame buffer. The glyphs of the font8x8 crate are a
-- parameter; the lock around the logger and the log crate are not modelled.

pub mod Drawing
pub mod Cursor
pub mod Start
mod Tests
use ferr_os.Base.{
  u64, ◌^◌, ℕ, zero, suc, ◌+◌, ◌-◌, ◌*◌, ◌/◌, ◌^◌, bit_and, ◌&&◌, Option, none, some, List, [], ◌∷◌,
  ◌++◌, ltb, leb, ◌==◌, if◌then◌else◌, length, get_elem?, get_or, set, drop, replicate, Outcome, ok,
  err, panic, hang,
}
use ferr_os.Base.Io.{Io, ◌>>=◌, ◌>>◌, pure, gets, modify, abort}

pub data PixelFormat : Type 0 where
  rgb bgr bitmask blt_only : PixelFormat

pub record FrameBufferInfo : Type 0 where
  pub addr : ℕ
  pub size : ℕ
  pub width : ℕ
  pub height : ℕ
  pub pixel_format : PixelFormat
  pub stride : ℕ

-- The frame buffer is given by its bytes below `size`.
pub record Logger : Type 0 where
  pub fb_info : FrameBufferInfo
  pub fb : ℕ → ℕ
  pub x_pos : ℕ
  pub y_pos : ℕ
  pub char_buffer : List (List ℕ)
  pub char_buffer_width : ℕ
  pub char_buffer_height : ℕ

abbrev pub Draw : Type 0
Draw = Io Logger (Unit {0})

-- `(size - 1) / 8` on a usize, which wraps.
abbrev pub cells : ℕ → ℕ
cells size = u64 (size + 2 ^ 64 - 1) / 8

unfoldable pub new_logger : FrameBufferInfo → Logger
new_logger fb_info =
    let w = cells fb_info.width in
    record {
      fb_info = fb_info;
      fb = λ _. 0;
      x_pos = 0;
      y_pos = 0;
      char_buffer = replicate w (replicate w 0);
      char_buffer_width = w;
      char_buffer_height = cells fb_info.height;
    }

-- The four bytes of a pixel, and none where the format is not supported.
abbrev pub color_of : PixelFormat → ℕ → Option (List ℕ)
color_of rgb intensity = some (intensity ∷ intensity ∷ (intensity / 2) ∷ 0 ∷ [])
color_of bgr intensity = some ((intensity / 2) ∷ intensity ∷ intensity ∷ 0 ∷ [])
color_of _ intensity = none

-- The bytes of a pixel at an offset; an unsupported format is `loop {}`.
abbrev pub put_pixel : ℕ → Option (List ℕ) → Draw
put_pixel byte_offset none l = hang
put_pixel byte_offset (some color) l =
    if leb (byte_offset + 4) l.fb_info.size
    then ok (
      tt,
      record l {
        fb = λ a.
            if leb byte_offset a && ltb a (byte_offset + 4)
            then get_or color (a - byte_offset) 0
            else l.fb a;
      },
    )
    else panic

unfoldable pub write_pixel : ℕ → ℕ → ℕ → Draw
write_pixel x y intensity l =
    put_pixel ((y * l.fb_info.stride + x) * 4) (color_of l.fb_info.pixel_format intensity) l

-- The loop over the bits of a row, with the number of bits left.
unfoldable pub write_bits : ℕ → ℕ → ℕ → ℕ → ℕ → Draw
unfolding write_pixel
write_bits zero bit byte x y = pure tt
write_bits (suc left) bit byte x y = do
  write_pixel (x + bit) y (if bit_and byte (2 ^ bit) == 0 then 0 else 255)
  write_bits left (bit + 1) byte x y

unfoldable pub write_8x8 : List ℕ → ℕ → ℕ → Draw
unfolding write_bits
write_8x8 [] x_pos y_pos = pure tt
write_8x8 (byte ∷ rendered) x_pos y_pos = do
  write_bits 8 0 byte x_pos y_pos
  write_8x8 rendered x_pos (y_pos + 1)

-- `char_buffer[y][x]`
unfoldable pub char_at : List (List ℕ) → ℕ → ℕ → Option ℕ
char_at buffer y x = elim (get_elem? buffer y) [ none ↦ none | some row ↦ get_elem? row x ]

module _ (font : ℕ → Option (List ℕ)) where
  abbrev pub draw_glyph : Option (List ℕ) → ℕ → ℕ → Draw
  draw_glyph none x y = abort
  draw_glyph (some rendered) x y = write_8x8 rendered (1 + x * 8) (1 + y * 8)

  abbrev pub draw_char : Option ℕ → ℕ → ℕ → Draw
  draw_char none x y = abort
  draw_char (some c) x y = draw_glyph (font c) x y

  unfoldable pub draw_row : ℕ → ℕ → ℕ → Draw
  unfolding write_8x8 char_at
  draw_row zero x y = pure tt
  draw_row (suc left) x y = do
    c ← gets λ l. char_at l.char_buffer y x
    draw_char c x y
    draw_row left (x + 1) y

  unfoldable pub draw_rows : ℕ → ℕ → Draw
  unfolding draw_row
  draw_rows zero y = pure tt
  draw_rows (suc left) y = do
    width ← gets λ l. l.char_buffer_width
    draw_row width 0 y
    draw_rows left (y + 1)

  unfoldable pub draw_char_buffer : Draw
  unfolding draw_rows
  draw_char_buffer l = draw_rows l.char_buffer_height 0 l

  unfoldable pub carriage_return : Draw
  carriage_return = modify λ l. record l { x_pos = 0 }

  -- `pop_front` and `push_back`
  abbrev pub scrolled : Logger → Logger
  scrolled l = record l {
    char_buffer = drop 1 l.char_buffer ++ replicate l.char_buffer_width 0 ∷ [];
    y_pos = l.char_buffer_height - 1;
    x_pos = 0;
  }

  abbrev pub next_line : Logger → Logger
  next_line l = record l { y_pos = l.y_pos + 1; x_pos = 0 }

  unfoldable pub newline : Draw
  unfolding draw_char_buffer
  newline l =
      if leb l.char_buffer_height (l.y_pos + 1)
      then draw_char_buffer (scrolled (next_line l))
      else ok (tt, next_line l)

  -- The loop of `clear`, over as many rows as the buffer is wide.
  unfoldable pub clear_rows : ℕ → ℕ → List (List ℕ) → Outcome (List (List ℕ))
  clear_rows zero i buffer = ok buffer
  clear_rows (suc left) i buffer = elim (get_elem? buffer i) [
    | none ↦ panic
    | some row ↦ clear_rows left (i + 1) (set buffer i (replicate (length row) 0))
  ]

  unfoldable pub clear : Draw
  unfolding clear_rows
  clear l = elim (clear_rows l.char_buffer_width 0 l.char_buffer) [
    | ok buffer ↦ ok (tt, record l { x_pos = 0; y_pos = 0; fb = λ _. 0; char_buffer = buffer })
    | err message ↦ err message
    | panic ↦ panic
    | hang ↦ hang
  ]

  -- `self.char_buffer[self.y_pos][self.x_pos] = c`
  unfoldable pub store_char : ℕ → Draw
  store_char c l = elim (get_elem? l.char_buffer l.y_pos) [
    | none ↦ panic
    | some row ↦
        if ltb l.x_pos (length row)
        then ok (tt, record l { char_buffer = set l.char_buffer l.y_pos (set row l.x_pos c) })
        else panic
  ]

  abbrev pub glyph_of : ℕ → Option (List ℕ)
  glyph_of c = if c == 0 then some (replicate 8 0xff) else font c

  abbrev pub drawing : ℕ → Draw
  drawing c = do
    x ← gets λ l. l.x_pos
    y ← gets λ l. l.y_pos
    draw_glyph (glyph_of c) x y
    modify λ l. record l { x_pos = l.x_pos + 1 }

  unfoldable pub put_char : ℕ → Draw
  unfolding store_char write_8x8
  put_char c = do store_char c; drawing c

  unfoldable pub write_char : ℕ → Draw
  unfolding newline carriage_return put_char
  write_char c l =
      if c == 10
      then newline l
      else if c == 13
      then carriage_return l
      else if leb l.char_buffer_width l.x_pos
      then (newline >> put_char c) l
      else put_char c l

  unfoldable pub write_str : List ℕ → Draw
  unfolding write_char
  write_str [] = pure tt
  write_str (c ∷ s) = do write_char c; write_str s
