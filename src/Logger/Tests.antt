-- ===== src/Logger/Tests.antt =====
-- shared_lib/src/logger.rs: the theorems on small frame buffers.
use ferr_os.Base.{
  ℕ, ◌/◌, ◌≡◌, refl, inl, inr, Option, none, some, List, [], ◌∷◌, ◌++◌, arith, ltb, if◌then◌else◌,
  replicate, panic,
}
use ferr_os.Base.Io.{Gives}
use ferr_os.Logger.{rgb, FrameBufferInfo, new_logger, write_str}
use ferr_os.Logger.Drawing.{IsSupported}
use ferr_os.Logger.Cursor.{IsValid, write_str-Valid}
use ferr_os.Logger.Start.{columns, new_logger-IsValid, portrait-panic}

abbrev block : List ℕ
block = replicate 8 0xff

abbrev ascii : ℕ → Option (List ℕ)
ascii c = if ltb c 128 then some block else none

-- Two rows of three characters.
abbrev landscape : FrameBufferInfo
landscape = record {
  addr = 0;
  size = 2176;
  width = 32;
  height = 17;
  pixel_format = rgb;
  stride = 32;
}

abbrev portrait : FrameBufferInfo
portrait = record {
  addr = 0;
  size = 2176;
  width = 17;
  height = 32;
  pixel_format = rgb;
  stride = 17;
}

rgb-IsSupported : IsSupported rgb
rgb-IsSupported i = (i ∷ i ∷ (i / 2) ∷ 0 ∷ [], refl)

landscape-IsValid : IsValid ascii landscape 3 2 (new_logger landscape)
landscape-IsValid =
    new_logger-IsValid ascii landscape (omega arith) (omega arith) (block, refl, refl)

new_logger-IsValid_test : IsValid ascii landscape 3 2 (new_logger landscape)
new_logger-IsValid_test =
    new_logger-IsValid ascii landscape (omega arith) (omega arith) (block, refl, refl)

write_str-Valid_example :
    Gives
      (λ _ l'. IsValid ascii landscape 3 2 l')
      (write_str ascii (65 ∷ 66 ∷ 67 ∷ 68 ∷ 10 ∷ 69 ∷ []) (new_logger landscape))
write_str-Valid_example =
    write_str-Valid ascii landscape rgb-IsSupported 3 2 (omega arith, omega arith) (omega arith)
      (block, refl, refl) (65 ∷ 66 ∷ 67 ∷ 68 ∷ 10 ∷ 69 ∷ []) (new_logger landscape)
      (
        inr (inr (block, refl, refl)),
        (
          inr (inr (block, refl, refl)),
          (
            inr (inr (block, refl, refl)),
            (inr (inr (block, refl, refl)), (inl refl, (inr (inr (block, refl, refl)), tt))),
          ),
        ),
      )
      landscape-IsValid

portrait-panic_example :
    write_str ascii (replicate (columns portrait) 10 ++ 65 ∷ []) (new_logger portrait) ≡ panic
portrait-panic_example =
    portrait-panic ascii portrait 65 (omega arith) (omega arith) (λ e. absurd (omega (arith, e)))
      (λ e. absurd (omega (arith, e)))
