-- ===== src/Bits/Laws.antt =====
-- What `set_bit`, `set_bits` and `get_bits` do to each binary digit.
use ferr_os.Base.{
  ℕ, ◌-◌, ◌/◌, ◌%◌, ◌^◌, ◌<◌, Bool, true, false, bit_and, bit_or, complement, if◌then◌else◌, ◌==◌,
  ◌≡◌, ◌≢◌, inl, inr, refl, arith, ap, sym, ◌∙◌, ne→not_==, ==_iff, all_below, all_below_sound,
}
use ferr_os.Base.Bits.{
  digit, digit-op, digit-mod, digit-of_lt, digit-div, digit-cases, bit_or-IsDigitwise,
  bit_and-IsDigitwise, and_low, and-zero, or-zero,
}
use native.Mathlib.Nat.{one-le-pow}
use ferr_os.Bits.{set_bit, get_bits, bit_mask}

ones_shifted : (k : ℕ) → k < 64 → ((2 ^ 64 - 1) / 2 ^ k == 2 ^ (64 - k) - 1) ≡ true
unfolding all_below
ones_shifted k h = all_below_sound 64 (λ k. (2 ^ 64 - 1) / 2 ^ k == 2 ^ (64 - k) - 1) k refl h

-- `get_bits` drops the digits below `start`, and of the others keeps the lowest `64 - end`.
pub get_bits-eq-mod :
    (num start end : ℕ)
    → start < 64
    → end < 64
    → get_bits num start end ≡ num / 2 ^ start % 2 ^ (64 - end)
unfolding get_bits
get_bits-eq-mod num start end hs he =
    let s : start % 64 ≡ start = omega arith in
    let e : end % 64 ≡ end = omega arith in
    let n : (end == 64) ≡ false = ne→not_== end 64 (omega arith) in
    rw (n, s, e, (==_iff _ _).0 (ones_shifted end he)) (and_low (64 - end) (num / 2 ^ start))

-- On a number with no digit from `end` on, where the field is not longer than the mask, the
-- result is the field.
pub get_bits-eq-field :
    (num start end : ℕ)
    → start < end
    → end < 64
    → num / 2 ^ start < 2 ^ (64 - end)
    → get_bits num start end ≡ num / 2 ^ start
get_bits-eq-field num start end hs he small =
    get_bits-eq-mod num start end (omega arith) he ∙ grind arith

-- Where the mask is longer than the field and the digit at `end` is set, the result is not the
-- field of the digits from `start` up to `end`.
pub get_bits-ne-field :
    (num start end : ℕ)
    → start < end
    → end < 64
    → end - start < 64 - end
    → digit num end ≡ 1
    → get_bits num start end ≢ num / 2 ^ start % 2 ^ (end - start)
get_bits-ne-field num start end hs he longer set equal = absurd (omega (arith, at_end, cut, kept))
  where
    at_end : digit num end ≡ digit (num / 2 ^ start) (end - start)
    at_end = ap (digit num) (omega arith) ∙ sym (digit-div num start (end - start))

    kept : digit (get_bits num start end) (end - start) ≡ digit (num / 2 ^ start) (end - start)
    kept =
        ap (λ t. digit t (end - start)) (get_bits-eq-mod num start end (omega arith) he)
        ∙ digit-mod (num / 2 ^ start) (64 - end) (end - start) longer

    cut : digit (get_bits num start end) (end - start) ≡ 0
    cut =
        ap (λ t. digit t (end - start)) equal
        ∙ digit-of_lt (end - start) (num / 2 ^ start % 2 ^ (end - start))
            (grind (arith, one-le-pow (end - start) 2))

digit_of_mask :
    (n k : ℕ) → n < 64 → k < 64 → (digit (bit_mask n) k == (if n == k then 1 else 0)) ≡ true
unfolding digit all_below
digit_of_mask n k hn hk =
    all_below_sound 64 (λ k. digit (bit_mask n) k == (if n == k then 1 else 0)) k
      (all_below_sound 64
        (λ n. all_below 64 (λ k. digit (bit_mask n) k == (if n == k then 1 else 0))) n refl hn)
      hk

digit_of_complement :
    (n k : ℕ)
    → n < 64
    → k < 64
    → (digit (complement 64 (bit_mask n)) k == (if n == k then 0 else 1)) ≡ true
unfolding digit all_below
digit_of_complement n k hn hk =
    all_below_sound 64 (λ k. digit (complement 64 (bit_mask n)) k == (if n == k then 0 else 1)) k
      (all_below_sound 64
        (λ n. all_below 64 (λ k. digit (complement 64 (bit_mask n)) k == (if n == k then 0 else 1)))
        n refl hn)
      hk

-- set_bit writes one of the 64 binary digits of a word and leaves each of the others as it is.
pub set_bit_lem :
    (num n k : ℕ) (value : Bool)
    → n < 64
    → k < 64
    → digit (set_bit num n value) k ≡ (if n == k then (if value then 1 else 0) else digit num k)
unfolding set_bit
set_bit_lem num n k true hn hk =
    digit-op bit_or-IsDigitwise k num (bit_mask n)
    ∙ rw ((==_iff _ _).0 (digit_of_mask n k hn hk)) (merged (n == k))
  where
    merged : (b : Bool) → bit_or (digit num k) (if b then 1 else 0) ≡ (if b then 1 else digit num k)
    merged true = elim (digit-cases num k) [ inl p ↦ rw p | inr p ↦ rw p ]
    merged false = or-zero (digit num k)
set_bit_lem num n k false hn hk =
    digit-op bit_and-IsDigitwise k num (complement 64 (bit_mask n))
    ∙ rw ((==_iff _ _).0 (digit_of_complement n k hn hk)) (cleared (n == k))
  where
    cleared :
        (b : Bool) → bit_and (digit num k) (if b then 0 else 1) ≡ (if b then 0 else digit num k)
    cleared true = and-zero (digit num k)
    cleared false = elim (digit-cases num k) [ inl p ↦ rw p | inr p ↦ rw p ]
