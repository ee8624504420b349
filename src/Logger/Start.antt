-- ===== src/Logger/Start.antt =====
-- shared_lib/src/logger.rs: the logger that is made for a frame buffer.
use ferr_os.Base.{none}
use ferr_os.Base.{get_elem?}
use ferr_os.Base.{
  ℕ, zero, suc, ◌+◌, ◌≤◌, ◌<◌, ◌≡◌, refl, sym, ap, ◌∙◌, ◌≢◌, false, Option, List, [], ◌∷◌, ◌++◌,
  arith, leb, ◌==◌, ne→not_==, replicate, length-replicate, All, ok, panic,
}
use mathlib.Core.Path.{subst}
use ferr_os.Base.{get_elem?-of_le}
use ferr_os.Base.Io.{io-ok, io-panic}
use ferr_os.Logger.{
  cells, drawing, FrameBufferInfo, Logger, new_logger, newline, store_char, put_char, write_char,
  write_str,
}
use ferr_os.Logger.Drawing.{HasGlyph, IsRow}
use ferr_os.Logger.Cursor.{IsValid}

abbrev pub columns : FrameBufferInfo → ℕ
columns info = cells info.width

abbrev pub lines : FrameBufferInfo → ℕ
lines info = cells info.height

All-copies : {A : Type 0} (P : A → Type 0) (n : ℕ) (v : A) → P v → All P (replicate n v)
All-copies P zero v p = tt
All-copies P (suc n) v p = (p, All-copies P n v p)

-- Where there are no more lines than columns, the new logger is as it should be.
pub new_logger-IsValid :
    (font : ℕ → Option (List ℕ)) (info : FrameBufferInfo)
    → 0 < lines info
    → lines info ≤ columns info
    → HasGlyph font 0
    → IsValid font info (columns info) (lines info) (new_logger info)
unfolding new_logger
new_logger-IsValid font info some_lines landscape blank = record {
  has_info = refl;
  has_width = refl;
  has_height = refl;
  tall =
      subst (λ n. lines info ≤ n)
        (sym (length-replicate (columns info) (replicate (columns info) 0))) landscape;
  rows =
      All-copies (IsRow font (columns info)) (columns info) _
        (length-replicate (columns info) 0, All-copies (HasGlyph font) (columns info) 0 blank);
  x_inside = omega arith;
  y_inside = some_lines;
}

module _ (font : ℕ → Option (List ℕ)) (info : FrameBufferInfo) where
  abbrev at_line : ℕ → Logger
  at_line k = record (new_logger info) { y_pos = k; x_pos = 0 }

  newline-inside :
      (k : ℕ) → k + 1 < lines info → newline font (at_line k) ≡ ok (tt, at_line (k + 1))
  unfolding newline new_logger
  newline-inside k h = let inside : leb (lines info) (k + 1) ≡ false = ground arith in rw inside

  write_newline :
      (k : ℕ) → k + 1 < lines info → write_char font 10 (at_line k) ≡ ok (tt, at_line (k + 1))
  unfolding write_char
  write_newline k h = newline-inside k h

  newlines :
      (n k : ℕ) (rest : List ℕ)
      → k + n < lines info
      → write_str font (replicate n 10 ++ rest) (at_line k) ≡ write_str font rest (at_line (k + n))
  unfolding write_str
  newlines zero k rest h = ap (λ i. write_str font rest (at_line i)) (omega arith)
  newlines (suc n) k rest h =
      io-ok (write_char font 10) (λ _. write_str font (replicate n 10 ++ rest)) (at_line k)
        (write_newline k (omega arith))
      ∙ newlines n (k + 1) rest (omega arith)
      ∙ ap (λ i. write_str font rest (at_line i)) (omega arith)

  no_store :
      (c k : ℕ) → get_elem? (at_line k).char_buffer k ≡ none → store_char font c (at_line k) ≡ panic
  unfolding store_char
  no_store c k e = rw (e, store_char)

  short : (k : ℕ) → columns info ≤ k → get_elem? (at_line k).char_buffer k ≡ none
  unfolding new_logger
  short k beyond =
      get_elem?-of_le (replicate (columns info) (replicate {A = ℕ} (columns info) 0)) k
        (omega (arith, length-replicate (columns info) (replicate {A = ℕ} (columns info) 0)))

  no_row :
      (c k : ℕ)
      → columns info ≤ k
      → (c == 10) ≡ false
      → (c == 13) ≡ false
      → 0 < columns info
      → write_char font c (at_line k) ≡ panic
  unfolding write_char put_char new_logger
  no_row c k beyond not_line not_return some_columns =
      let space : leb (columns info) 0 ≡ false = ground arith in
      rw (not_line, not_return, space)
        (io-panic (store_char font c) (λ _. drawing font c) (at_line k)
          (no_store c k (short k beyond)))

  -- On a frame buffer with more lines than columns, as many ends of lines as there are columns,
  -- and a character after them, are a panic.
  pub portrait-panic :
      (c : ℕ)
      → 0 < columns info
      → columns info < lines info
      → c ≢ 10
      → c ≢ 13
      → write_str font (replicate (columns info) 10 ++ c ∷ []) (new_logger info) ≡ panic
  unfolding write_str new_logger
  portrait-panic c some_columns portrait not_line not_return =
      newlines (columns info) 0 (c ∷ []) (omega arith)
      ∙ io-panic (write_char font c) (λ _. write_str font []) (at_line (0 + columns info))
          (no_row c (0 + columns info) (omega arith) (ne→not_== c 10 not_line)
            (ne→not_== c 13 not_return) some_columns)
