-- ===== src/Base/Bits/Masks.antt =====
-- Masks of consecutive ones, and `|` of fields that do not overlap, as arithmetic.
use Prim.Native.Nat.{ℕ, zero, suc, ◌+◌, ◌-◌, ◌*◌, ◌/◌, ◌%◌, ◌^◌, ◌≤◌, ◌<◌, bit_and, bit_or}
use mathlib.Core.Path.{◌≡◌, refl, sym, ap₂, ◌∙◌, ◌≡⟨◌⟩◌, ◌∎}
use mathlib.Core.Logic.{◌⊎◌, inl, inr}
use native.Mathlib.Omega.{arith}
use native.Mathlib.Nat.{pow-suc, one-le-pow, add-zero, mul-mod_left}
use ferr_os.Base.Bits.Fields.{
  IsDigitwise, op_fields, bit_or-IsDigitwise, bit_and-IsDigitwise, zero-or,
}

module _ {op : ℕ → ℕ → ℕ} (law : IsDigitwise op) where
  -- The operation, cut at the `k`-th digit.
  pub op_split :
      (k a b : ℕ) → op a b ≡ op (a / 2 ^ k) (b / 2 ^ k) * 2 ^ k + op (a % 2 ^ k) (b % 2 ^ k)
  op_split k a b =
      ap₂ op (whole a) (whole b)
      ∙ op_fields law k (a / 2 ^ k) (b / 2 ^ k) (a % 2 ^ k) (b % 2 ^ k) (small a) (small b)
    where
      whole : (x : ℕ) → x ≡ x / 2 ^ k * 2 ^ k + x % 2 ^ k
      whole x = grind (arith, one-le-pow k 2)

      small : (x : ℕ) → x % 2 ^ k < 2 ^ k
      small x = grind (arith, one-le-pow k 2)

parity : (x : ℕ) → (x % 2 ≡ 0) ⊎ (x % 2 ≡ 1)
parity x = omega arith

or_digit-zero : (x : ℕ) → bit_or (x % 2) 0 ≡ x % 2
or_digit-zero x = elim (parity x) [ inl e ↦ rw e | inr e ↦ rw e ]

and_digit-zero : (x : ℕ) → bit_and (x % 2) 0 ≡ 0
and_digit-zero x = elim (parity x) [ inl e ↦ rw e | inr e ↦ rw e ]

and_digit-one : (x : ℕ) → bit_and (x % 2) 1 ≡ x % 2
and_digit-one x = elim (parity x) [ inl e ↦ rw e | inr e ↦ rw e ]

or-zero_within : (n a : ℕ) → a ≤ n → bit_or a 0 ≡ a
or-zero_within n zero h = refl
or-zero_within zero (suc a) h = absurd (omega arith)
or-zero_within (suc n) (suc a) h = omega (
  arith,
  bit_or-IsDigitwise.last_digit (suc a) 0,
  or_digit-zero (suc a),
  or-zero_within n (suc a / 2) (omega arith),
)

pub or-zero : (a : ℕ) → bit_or a 0 ≡ a
or-zero a = or-zero_within a a (omega arith)

and-zero_within : (n a : ℕ) → a ≤ n → bit_and a 0 ≡ 0
and-zero_within n zero h = refl
and-zero_within zero (suc a) h = absurd (omega arith)
and-zero_within (suc n) (suc a) h = omega (
  arith,
  bit_and-IsDigitwise.last_digit (suc a) 0,
  and_digit-zero (suc a),
  and-zero_within n (suc a / 2) (omega arith),
)

pub and-zero : (a : ℕ) → bit_and a 0 ≡ 0
and-zero a = and-zero_within a a (omega arith)

-- A mask of ones keeps the numbers that fit it.
and_ones : (k a : ℕ) → a < 2 ^ k → bit_and a (2 ^ k - 1) ≡ a
and_ones zero a h = omega (arith, and-zero a)
and_ones (suc k) a h =
    rw (bit_and-IsDigitwise.last_digit a (2 ^ suc k - 1), half, odd, and_digit-one a)
      (omega (arith, and_ones k (a / 2) (omega (arith, pow-suc 2 k))))
  where
    half : (2 ^ suc k - 1) / 2 ≡ 2 ^ k - 1
    half = omega (arith, pow-suc 2 k, one-le-pow k 2)

    odd : (2 ^ suc k - 1) % 2 ≡ 1
    odd = omega (arith, pow-suc 2 k, one-le-pow k 2)

-- `a & (2 ^ k - 1)` is the remainder.
pub and_low : (k a : ℕ) → bit_and a (2 ^ k - 1) ≡ a % 2 ^ k
and_low k a =
    bit_and a (2 ^ k - 1)
    ≡⟨ op_split bit_and-IsDigitwise k a (2 ^ k - 1) ⟩
      bit_and (a / 2 ^ k) ((2 ^ k - 1) / 2 ^ k) * 2 ^ k + bit_and (a % 2 ^ k) ((2 ^ k - 1) % 2 ^ k)
    ≡⟨ (rw (none, all, and-zero, and_ones k (a % 2 ^ k) (grind (arith, pos)))) ⟩
      0 * 2 ^ k + a % 2 ^ k
    ≡⟨ omega arith ⟩ a % 2 ^ k ∎
  where
    pos : 1 ≤ 2 ^ k
    pos = one-le-pow k 2 (omega arith)

    none : (2 ^ k - 1) / 2 ^ k ≡ 0
    none = grind (arith, pos)

    all : (2 ^ k - 1) % 2 ^ k ≡ 2 ^ k - 1
    all = grind (arith, pos)

-- `n` ones from the `k`-th digit on cut out a field, in its place.
pub and_field : (n k a : ℕ) → bit_and a ((2 ^ n - 1) * 2 ^ k) ≡ a / 2 ^ k % 2 ^ n * 2 ^ k
and_field n k a =
    bit_and a ((2 ^ n - 1) * 2 ^ k)
    ≡⟨ op_split bit_and-IsDigitwise k a ((2 ^ n - 1) * 2 ^ k) ⟩
      bit_and (a / 2 ^ k) ((2 ^ n - 1) * 2 ^ k / 2 ^ k) * 2 ^ k
      + bit_and (a % 2 ^ k) ((2 ^ n - 1) * 2 ^ k % 2 ^ k)
    ≡⟨ (rw (mul-div_cancel, mul-mod_left, and-zero, and_low)) ⟩ a / 2 ^ k % 2 ^ n * 2 ^ k + 0
    ≡⟨ omega arith ⟩ a / 2 ^ k % 2 ^ n * 2 ^ k ∎
  where
    mul-div_cancel : (2 ^ n - 1) * 2 ^ k / 2 ^ k ≡ 2 ^ n - 1
    mul-div_cancel = grind (arith, one-le-pow k 2)

-- `|` of a number above the `k`-th digit with one below is their sum.
pub or_fields : (k q r : ℕ) → r < 2 ^ k → bit_or (q * 2 ^ k) r ≡ q * 2 ^ k + r
or_fields k q r h =
    bit_or (q * 2 ^ k) r
    ≡⟨ ap₂ bit_or (sym (add-zero _)) (zero-add r) ⟩ bit_or (q * 2 ^ k + 0) (0 * 2 ^ k + r)
    ≡⟨ op_fields bit_or-IsDigitwise k q 0 0 r (one-le-pow k 2 (omega arith)) h ⟩
      bit_or q 0 * 2 ^ k + bit_or 0 r
    ≡⟨ (rw (or-zero, zero-or)) ⟩ q * 2 ^ k + r ∎
  where
    zero-add : (x : ℕ) → x ≡ 0 * 2 ^ k + x
    zero-add x = omega arith

-- A low field and a high one, in this order.
pub or_high : (k r q : ℕ) → 0 < 2 ^ k → r < 2 ^ k → bit_or r (q * 2 ^ k) ≡ q * 2 ^ k + r
or_high k r q positive h =
    let apart = op_fields bit_or-IsDigitwise k 0 q r 0 h positive in
    ap₂ bit_or (omega arith) (omega arith) ∙ apart ∙ rw (zero-or q, or-zero r) refl
