-- ===== src/Logger/Cursor.antt =====
-- shared_lib/src/logger.rs: the cursor and the text, as characters are written.
use ferr_os.Base.{ok}
use ferr_os.Base.{
  get_elem?, ℕ, zero, suc, ◌+◌, ◌≤◌, ◌<◌, ◌≡◌, refl, sym, ap, ◌∙◌, ◌⊎◌, inl, inr, false, Option,
  some, List, [], ◌∷◌, ◌++◌, arith, leb, ◌==◌, lt→ltb, Bool-cases, length, set, drop, replicate,
  length-append, length-set, length-replicate, All,
}
use ferr_os.Base.Io.{modify}
use mathlib.Core.Path.{subst}
use ferr_os.Base.Io.{Gives, gives, Gives-bind, Gives-map}
use ferr_os.Logger.{
  FrameBufferInfo, Logger, draw_glyph, carriage_return, scrolled, next_line, newline, store_char,
  glyph_of, put_char, drawing, write_char, write_str,
}
use ferr_os.Logger.Drawing.{
  Drawn, IsSupported, HasGlyph, All-get, IsRow, HasRoom, draw_glyph-Drawn, draw_char_buffer-Drawn,
}

module _ {A : Type 0} (P : A → Type 0) where
  All-set : (xs : List A) (i : ℕ) (v : A) → All P xs → P v → All P (set xs i v)
  All-set [] i v h p = tt
  All-set (x ∷ xs) zero v h p = (p, h.1)
  All-set (x ∷ xs) (suc i) v h p = (h.0, All-set xs i v h.1 p)

  All-push : (xs : List A) (v : A) → All P xs → P v → All P (xs ++ v ∷ [])
  All-push [] v h p = (p, tt)
  All-push (x ∷ xs) v h p = (h.0, All-push xs v h.1 p)

  All-drop_one : (xs : List A) → All P xs → All P (drop 1 xs)
  All-drop_one [] h = tt
  All-drop_one (x ∷ xs) h = h.1

  All-replicate : (n : ℕ) (v : A) → P v → All P (replicate n v)
  All-replicate zero v p = tt
  All-replicate (suc n) v p = (p, All-replicate n v p)

length-pushed :
    {A : Type 0} (xs : List A) (v : A) → 0 < length xs → length (drop 1 xs ++ v ∷ []) ≡ length xs
length-pushed [] v h = elim h [ ]
length-pushed (x ∷ xs) v h = omega (arith, length-append xs (v ∷ []))

-- The text has its rows, each with its glyphs, and the cursor stands in it, or behind a row's end.
pub record IsValid (font : ℕ → Option (List ℕ)) (info : FrameBufferInfo) (width height : ℕ)
    (l : Logger) : Type 0 where
  pub has_info : l.fb_info ≡ info
  pub has_width : l.char_buffer_width ≡ width
  pub has_height : l.char_buffer_height ≡ height
  pub tall : height ≤ length l.char_buffer
  pub rows : All (IsRow font width) l.char_buffer
  pub x_inside : l.x_pos ≤ width
  pub y_inside : l.y_pos < height

module _ (font : ℕ → Option (List ℕ)) (info : FrameBufferInfo)
    (supported : IsSupported info.pixel_format) (width height : ℕ)
    (room : HasRoom info width height) (some_width : 0 < width) (blank : HasGlyph font 0) where
  abbrev Valid : Logger → Type 0
  Valid = IsValid font info width height

  Drawn-Valid : (l l' : Logger) → Drawn l tt l' → Valid l → Valid l'
  Drawn-Valid l l' p v = record {
    has_info = ap (λ k. k.fb_info) p ∙ v.has_info;
    has_width = ap (λ k. k.char_buffer_width) p ∙ v.has_width;
    has_height = ap (λ k. k.char_buffer_height) p ∙ v.has_height;
    tall = omega (arith, ap (λ k. length k.char_buffer) p, v.tall);
    rows = subst (All (IsRow font width)) (sym (ap (λ k. k.char_buffer) p)) v.rows;
    x_inside = omega (arith, ap (λ k. k.x_pos) p, v.x_inside);
    y_inside = omega (arith, ap (λ k. k.y_pos) p, v.y_inside);
  }

  scrolled-Valid : (l : Logger) → Valid l → Valid (scrolled font (next_line font l))
  scrolled-Valid l v = record {
    has_info = v.has_info;
    has_width = v.has_width;
    has_height = v.has_height;
    tall =
        subst (λ n. height ≤ n)
          (sym (
            length-pushed l.char_buffer (replicate l.char_buffer_width 0)
              (omega (arith, v.tall, v.y_inside))))
          v.tall;
    rows =
        All-push (IsRow font width) (drop 1 l.char_buffer) _
          (All-drop_one (IsRow font width) l.char_buffer v.rows)
          (
            length-replicate l.char_buffer_width 0 ∙ v.has_width,
            All-replicate (HasGlyph font) l.char_buffer_width 0 blank,
          );
    x_inside = omega arith;
    y_inside = omega (arith, v.has_height, v.y_inside);
  }

  newline-Valid :
      (l : Logger) → Valid l → Gives (λ _ l'. Valid l' × (l'.x_pos ≡ 0)) (newline font l)
  unfolding newline
  newline-Valid l v = elim (Bool-cases (leb l.char_buffer_height (l.y_pos + 1))) [
    | inr inside ↦ rw inside (
        gives (
          record {
            has_info = v.has_info;
            has_width = v.has_width;
            has_height = v.has_height;
            tall = v.tall;
            rows = v.rows;
            x_inside = omega arith;
            y_inside = ground (arith, v.has_height, inside);
          },
          refl,
        ))
    | inl last ↦
        let s = scrolled-Valid l v in
        rw last (
          Gives-map
            (draw_char_buffer-Drawn font info supported width height room
              (scrolled font (next_line font l)) s.has_width s.has_height s.tall s.rows s.has_info)
            λ _ l' p. (Drawn-Valid _ l' p s, ap (λ k. k.x_pos) p))
  ]

  glyph_of-some :
      (c : ℕ) → HasGlyph font c → (g : List ℕ) × (glyph_of font c ≡ some g) × (length g ≡ 8)
  glyph_of-some c (g, there, rows) = elim (Bool-cases (c == 0)) [
    | inl null ↦ (replicate 8 0xff, rw null, refl)
    | inr other ↦ (g, rw other there, rows)
  ]

  abbrev stored : ℕ → Logger → List ℕ → Logger
  stored c l row = record l { char_buffer = set l.char_buffer l.y_pos (set row l.x_pos c) }

  stored-Valid :
      (c : ℕ) (l : Logger) (row : List ℕ)
      → HasGlyph font c
      → Valid l
      → IsRow font width row
      → Valid (stored c l row)
  stored-Valid c l row glyph v (size, glyphs) = record {
    has_info = v.has_info;
    has_width = v.has_width;
    has_height = v.has_height;
    tall = subst (λ n. height ≤ n) (sym (length-set l.char_buffer l.y_pos _)) v.tall;
    rows =
        All-set (IsRow font width) l.char_buffer l.y_pos _ v.rows
          (length-set row l.x_pos c ∙ size, All-set (HasGlyph font) row l.x_pos c glyphs glyph);
    x_inside = v.x_inside;
    y_inside = v.y_inside;
  }

  store_char-eq :
      (c : ℕ) (l : Logger) (row : List ℕ)
      → get_elem? l.char_buffer l.y_pos ≡ some row
      → l.x_pos < length row
      → store_char font c l ≡ ok (tt, stored c l row)
  unfolding store_char
  store_char-eq c l row there before =
      rw (there, store_char) (rw (lt→ltb l.x_pos (length row) before))

  put_char-Valid :
      (c : ℕ) (l : Logger)
      → HasGlyph font c
      → Valid l
      → l.x_pos < width
      → Gives (λ _ l'. Valid l') (put_char font c l)
  unfolding put_char
  put_char-Valid c l glyph v before =
      let (row, there, ok_row) =
        All-get l.char_buffer l.y_pos v.rows (omega (arith, v.tall, v.y_inside)) in
      let s = stored-Valid c l row glyph v ok_row in
      let (g, drawn, tall) = glyph_of-some c glyph in
      Gives-bind (store_char font c) _ l
        (subst (Gives (λ _ l1. l1 ≡ stored c l row))
          (sym (store_char-eq c l row there (omega (arith, ok_row.0)))) (gives refl))
        λ _ l0 same.
          subst (λ k. Gives (λ _ l'. Valid l') (drawing font c k)) (sym same)
            (Gives-bind (draw_glyph font (glyph_of font c) l.x_pos l.y_pos)
              (λ _. modify λ k. record k { x_pos = k.x_pos + 1 }) (stored c l row)
              (draw_glyph-Drawn font info supported width height room (glyph_of font c) g l.x_pos
                l.y_pos (stored c l row) drawn tall before v.y_inside v.has_info)
              λ _ l1 p.
                let v1 = Drawn-Valid (stored c l row) l1 p s in
                gives (record {
                  has_info = v1.has_info;
                  has_width = v1.has_width;
                  has_height = v1.has_height;
                  tall = v1.tall;
                  rows = v1.rows;
                  x_inside = omega (arith, ap (λ k. k.x_pos) p);
                  y_inside = v1.y_inside;
                }))

  write_char-Valid :
      (c : ℕ) (l : Logger)
      → (c ≡ 10) ⊎ (c ≡ 13) ⊎ HasGlyph font c
      → Valid l
      → Gives (λ _ l'. Valid l') (write_char font c l)
  unfolding write_char carriage_return
  write_char-Valid c l writable v = elim (Bool-cases (c == 10)) [
    | inl line ↦ rw line (Gives-map (newline-Valid l v) λ _ l' p. p.0)
    | inr other ↦ rw other (elim (Bool-cases (c == 13)) [
      | inl back ↦ rw back (
          gives (record {
            has_info = v.has_info;
            has_width = v.has_width;
            has_height = v.has_height;
            tall = v.tall;
            rows = v.rows;
            x_inside = omega arith;
            y_inside = v.y_inside;
          }))
      | inr plain ↦ rw plain (elim (Bool-cases (leb l.char_buffer_width l.x_pos)) [
        | inl full ↦ rw full (
            Gives-bind (newline font) (λ _. put_char font c) l (newline-Valid l v)
              λ _ l1 (v1, start). put_char-Valid c l1 (glyph other plain) v1 (omega (arith, start)))
        | inr space ↦
            rw space (put_char-Valid c l (glyph other plain) v (ground (arith, space, v.has_width)))
      ])
    ])
  ]
    where
      glyph : (c == 10) ≡ false → (c == 13) ≡ false → HasGlyph font c
      glyph other plain = elim writable [
        | inl e ↦ absurd (ground (arith, e, other))
        | inr (inl e) ↦ absurd (ground (arith, e, plain))
        | inr (inr g) ↦ g
      ]

  -- On a frame buffer of the RGB or BGR format, with at least one column of characters, a stride
  -- and a size that have room for the text's lines and columns, and a glyph for the null
  -- character, and with cursor and text in their bounds: text whose characters are ends of lines
  -- or have glyphs is written without a panic, and without a loop that does not end, however
  -- long it is. The cursor and the text are in their bounds after it.
  pub write_str-Valid :
      (s : List ℕ) (l : Logger)
      → All (λ c. (c ≡ 10) ⊎ (c ≡ 13) ⊎ HasGlyph font c) s
      → IsValid font info width height l
      → Gives (λ _ l'. IsValid font info width height l') (write_str font s l)
  unfolding write_str
  write_str-Valid [] l h v = gives v
  write_str-Valid (c ∷ s) l h v =
      Gives-bind (write_char font c) (λ _. write_str font s) l (write_char-Valid c l h.0 v)
        λ _ l1 v1. write_str-Valid s l1 h.1 v1
