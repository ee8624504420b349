-- ===== src/Base/Bits/Fields.antt =====
-- A binary operation on digits acts on the low `k` digits and on the rest apart. From this
-- come the laws of masks and of disjoint fields.
use Prim.Native.Nat.{
  ℕ, zero, suc, ◌+◌, ◌*◌, ◌/◌, ◌%◌, ◌^◌, ◌≤◌, ◌<◌, min, max, bit_and, bit_or, bit_xor, differ,
  digits, bit_and-bitwise, bit_or-bitwise, bit_xor-bitwise,
}
use mathlib.Core.Path.{◌≡◌, refl, ap}
use mathlib.Core.Logic.{◌⊎◌, inl, inr}
use native.Mathlib.Omega.{arith}
use native.Mathlib.Nat.{pow-suc}

-- Any count of digits that covers the first number gives the same result.
module _ (z : ℕ → ℕ) (f : ℕ → ℕ → ℕ) where
  digits_count : (n m a b : ℕ) → a ≤ n → a ≤ m → digits z f n a b ≡ digits z f m a b
  digits_count (suc k) (suc l) (suc c) d p q =
      ap (λ t. t * 2 + f (suc c % 2) (d % 2))
        (digits_count k l (suc c / 2) (d / 2) (omega arith) (omega arith))
  digits_count (suc k) (suc l) zero d _ _ = refl
  digits_count (suc k) zero zero d _ _ = refl
  digits_count zero (suc l) zero d _ _ = refl
  digits_count zero zero zero d _ _ = refl
  digits_count zero _ (suc c) d p q = absurd (omega arith)
  digits_count (suc k) zero (suc c) d p q = absurd (omega arith)

  digits_last :
      (a b : ℕ)
      → digits z f (suc a) (suc a) b
        ≡ digits z f (suc a / 2) (suc a / 2) (b / 2) * 2 + f (suc a % 2) (b % 2)
  digits_last a b =
      ap (λ t. t * 2 + f (suc a % 2) (b % 2))
        (digits_count a (suc a / 2) (suc a / 2) (b / 2) (omega arith) (omega arith))

-- An operation that works digit by digit, and maps two zeros to zero.
pub record IsDigitwise (op : ℕ → ℕ → ℕ) : Type 0 where
  pub none_set : op 0 0 ≡ 0
  pub last_digit : (a b : ℕ) → op a b ≡ op (a / 2) (b / 2) * 2 + op (a % 2) (b % 2)
  pub digit_lt : (a b : ℕ) → op (a % 2) (b % 2) < 2

digit-cases : (a : ℕ) → (a % 2 ≡ 0) ⊎ (a % 2 ≡ 1)
digit-cases a = omega arith

or_digit : (a b : ℕ) → max (a % 2) (b % 2) ≡ bit_or (a % 2) (b % 2)
or_digit a b = elim (digit-cases a) [
  | inl p ↦ elim (digit-cases b) [ inl q ↦ rw (p, q) | inr q ↦ rw (p, q) ]
  | inr p ↦ elim (digit-cases b) [ inl q ↦ rw (p, q) | inr q ↦ rw (p, q) ]
]

and_digit : (a b : ℕ) → min (a % 2) (b % 2) ≡ bit_and (a % 2) (b % 2)
and_digit a b = elim (digit-cases a) [
  | inl p ↦ elim (digit-cases b) [ inl q ↦ rw (p, q) | inr q ↦ rw (p, q) ]
  | inr p ↦ elim (digit-cases b) [ inl q ↦ rw (p, q) | inr q ↦ rw (p, q) ]
]

xor_digit : (a b : ℕ) → differ (a % 2) (b % 2) ≡ bit_xor (a % 2) (b % 2)
xor_digit a b = elim (digit-cases a) [
  | inl p ↦ elim (digit-cases b) [ inl q ↦ rw (p, q) | inr q ↦ rw (p, q) ]
  | inr p ↦ elim (digit-cases b) [ inl q ↦ rw (p, q) | inr q ↦ rw (p, q) ]
]

pub zero-or : (b : ℕ) → bit_or 0 b ≡ b
zero-or b = bit_or-bitwise 0 b

pub zero-and : (b : ℕ) → bit_and 0 b ≡ 0
zero-and b = bit_and-bitwise 0 b

pub zero-xor : (b : ℕ) → bit_xor 0 b ≡ b
zero-xor b = bit_xor-bitwise 0 b

or_last : (a b : ℕ) → bit_or a b ≡ bit_or (a / 2) (b / 2) * 2 + bit_or (a % 2) (b % 2)
or_last zero b = omega (arith, zero-or b, zero-or (b / 2), zero-or (b % 2))
or_last (suc a) b = omega (
  arith,
  bit_or-bitwise (suc a) b,
  bit_or-bitwise (suc a / 2) (b / 2),
  digits_last (λ y. y) max a b,
  or_digit (suc a) b,
)

and_last : (a b : ℕ) → bit_and a b ≡ bit_and (a / 2) (b / 2) * 2 + bit_and (a % 2) (b % 2)
and_last zero b = omega (arith, zero-and b, zero-and (b / 2), zero-and (b % 2))
and_last (suc a) b = omega (
  arith,
  bit_and-bitwise (suc a) b,
  bit_and-bitwise (suc a / 2) (b / 2),
  digits_last (λ y. 0) min a b,
  and_digit (suc a) b,
)

xor_last : (a b : ℕ) → bit_xor a b ≡ bit_xor (a / 2) (b / 2) * 2 + bit_xor (a % 2) (b % 2)
xor_last zero b = omega (arith, zero-xor b, zero-xor (b / 2), zero-xor (b % 2))
xor_last (suc a) b = omega (
  arith,
  bit_xor-bitwise (suc a) b,
  bit_xor-bitwise (suc a / 2) (b / 2),
  digits_last (λ y. y) differ a b,
  xor_digit (suc a) b,
)

or_digit_lt : (a b : ℕ) → bit_or (a % 2) (b % 2) < 2
or_digit_lt a b = omega (arith, or_digit a b)

and_digit_lt : (a b : ℕ) → bit_and (a % 2) (b % 2) < 2
and_digit_lt a b = omega (arith, and_digit a b)

xor_digit_lt : (a b : ℕ) → bit_xor (a % 2) (b % 2) < 2
xor_digit_lt a b = elim (digit-cases a) [
  | inl p ↦ elim (digit-cases b) [
    | inl q ↦ rw (p, q) (omega arith)
    | inr q ↦ rw (p, q) (omega arith)
  ]
  | inr p ↦ elim (digit-cases b) [
    | inl q ↦ rw (p, q) (omega arith)
    | inr q ↦ rw (p, q) (omega arith)
  ]
]

pub bit_or-IsDigitwise : IsDigitwise bit_or
bit_or-IsDigitwise = record { none_set = refl; last_digit = or_last; digit_lt = or_digit_lt }

pub bit_and-IsDigitwise : IsDigitwise bit_and
bit_and-IsDigitwise = record { none_set = refl; last_digit = and_last; digit_lt = and_digit_lt }

pub bit_xor-IsDigitwise : IsDigitwise bit_xor
bit_xor-IsDigitwise = record { none_set = refl; last_digit = xor_last; digit_lt = xor_digit_lt }

pub double_pow : (q k : ℕ) → q * 2 ^ suc k ≡ q * 2 ^ k * 2
double_pow q k = omega (arith, ap (λ (t : ℕ). q * t) (pow-suc 2 k))

-- The operation on a high and a low field is the operation on each.
module _ {op : ℕ → ℕ → ℕ} (law : IsDigitwise op) where
  pub op_fields :
      (k p q r s : ℕ)
      → r < 2 ^ k
      → s < 2 ^ k
      → op (p * 2 ^ k + r) (q * 2 ^ k + s) ≡ op p q * 2 ^ k + op r s
  op_fields zero p q r s hr hs =
      let r0 : r ≡ 0 = omega arith in
      let s0 : s ≡ 0 = omega arith in
      let p1 : p * 2 ^ 0 + 0 ≡ p = omega arith in
      let q1 : q * 2 ^ 0 + 0 ≡ q = omega arith in rw (r0, s0, p1, q1, law.none_set) (omega arith)
  op_fields (suc k) p q r s hr hs =
      let halves : op ((p * 2 ^ suc k + r) / 2) ((q * 2 ^ suc k + s) / 2)
          ≡ op p q * 2 ^ k + op (r / 2) (s / 2) =
        rw (half p r, half q s) (op_fields k p q (r / 2) (s / 2) (bound r hr) (bound s hs)) in
      rw
        (
          law.last_digit (p * 2 ^ suc k + r) (q * 2 ^ suc k + s),
          halves,
          last p r,
          last q s,
          law.last_digit r s,
          double_pow (op p q) k,
        )
        (omega arith)
    where
      half : (x y : ℕ) → (x * 2 ^ suc k + y) / 2 ≡ x * 2 ^ k + y / 2
      half x y = omega (arith, double_pow x k)

      last : (x y : ℕ) → (x * 2 ^ suc k + y) % 2 ≡ y % 2
      last x y = omega (arith, double_pow x k)

      bound : (y : ℕ) → y < 2 ^ suc k → y / 2 < 2 ^ k
      bound y h = omega (arith, pow-suc 2 k)
