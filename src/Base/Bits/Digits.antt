-- ===== src/Base/Bits/Digits.antt =====
-- Numbers by their binary digits: the digits of an operation, and extensionality.
use Prim.Native.Nat.{ℕ, zero, suc, ◌+◌, ◌-◌, ◌/◌, ◌%◌, ◌^◌, ◌≤◌, ◌<◌, bit_xor}
use mathlib.Core.Path.{◌≡◌, ap, ap₂, ◌∙◌, sym, ◌≡⟨◌⟩◌, ◌∎}
use mathlib.Core.Logic.{◌⊎◌, inl, inr}
use native.Mathlib.Omega.{arith}
use native.Mathlib.Nat.{pow-suc, one-le-pow, div-div-eq-div-mul}
use ferr_os.Base.Bits.Fields.{IsDigitwise, bit_and-IsDigitwise, bit_xor-IsDigitwise}
use ferr_os.Base.Bits.Masks.{and_low}

-- The `k`-th binary digit.
unfoldable pub digit : ℕ → ℕ → ℕ
digit x k = x / 2 ^ k % 2

digit-suc : (x k : ℕ) → digit x (suc k) ≡ digit (x / 2) k
unfolding digit
digit-suc x k =
    ap (λ t. t % 2)
      (ap (λ t. x / t) (omega (arith, pow-suc 2 k)) ∙ sym (div-div-eq-div-mul x 2 (2 ^ k)))

digit-zero : (x : ℕ) → digit x 0 ≡ x % 2
unfolding digit
digit-zero x = omega arith

pub digit-of_zero : (k : ℕ) → digit 0 k ≡ 0
digit-of_zero zero = digit-zero 0
digit-of_zero (suc k) = digit-suc 0 k ∙ digit-of_zero k

pub digit-cases : (x k : ℕ) → (digit x k ≡ 0) ⊎ (digit x k ≡ 1)
unfolding digit
digit-cases x k = omega arith

module _ {op : ℕ → ℕ → ℕ} (law : IsDigitwise op) where
  half : (a b : ℕ) → op a b / 2 ≡ op (a / 2) (b / 2)
  half a b = omega (arith, law.last_digit a b, law.digit_lt a b)

  pub digit-op : (k a b : ℕ) → digit (op a b) k ≡ op (digit a k) (digit b k)
  digit-op zero a b =
      rw (digit-zero (op a b), digit-zero a, digit-zero b)
        (omega (arith, law.last_digit a b, law.digit_lt a b))
  digit-op (suc k) a b =
      rw (digit-suc (op a b) k, half a b, digit-op k (a / 2) (b / 2), digit-suc a k, digit-suc b k)

  -- The operation stays within a width.
  pub op-lt : (k a b : ℕ) → a < 2 ^ k → b < 2 ^ k → op a b < 2 ^ k
  op-lt zero a b ha hb =
      let a0 : a ≡ 0 = omega arith in
      let b0 : b ≡ 0 = omega arith in rw (a0, b0, law.none_set) (omega arith)
  op-lt (suc k) a b ha hb = omega (
    arith,
    pow-suc 2 k,
    half a b,
    op-lt k (a / 2) (b / 2) (omega (arith, pow-suc 2 k)) (omega (arith, pow-suc 2 k)),
  )

digits_ext_within : (n a b : ℕ) → a ≤ n → b ≤ n → ((k : ℕ) → digit a k ≡ digit b k) → a ≡ b
digits_ext_within zero a b p q h = omega arith
digits_ext_within (suc n) a b p q h = omega (
  arith,
  h 0,
  digit-zero a,
  digit-zero b,
  digits_ext_within n (a / 2) (b / 2) (omega arith) (omega arith)
      λ k. sym (digit-suc a k) ∙ h (suc k) ∙ digit-suc b k,
)

-- Two numbers with the same digits are equal.
pub digits_ext : (a b : ℕ) → ((k : ℕ) → digit a k ≡ digit b k) → a ≡ b
digits_ext a b h = digits_ext_within (a + b) a b (omega arith) (omega arith) h

digit-xor : (a b k : ℕ) → digit (bit_xor a b) k ≡ bit_xor (digit a k) (digit b k)
digit-xor a b k = digit-op bit_xor-IsDigitwise k a b

pub xor_comm : (a b : ℕ) → bit_xor a b ≡ bit_xor b a
xor_comm a b = digits_ext _ _ λ k. rw (digit-xor a b k, digit-xor b a k) (swapped k)
  where
    swapped : (k : ℕ) → bit_xor (digit a k) (digit b k) ≡ bit_xor (digit b k) (digit a k)
    swapped k = elim (digit-cases a k) [
      | inl p ↦ elim (digit-cases b k) [ inl q ↦ rw (p, q) | inr q ↦ rw (p, q) ]
      | inr p ↦ elim (digit-cases b k) [ inl q ↦ rw (p, q) | inr q ↦ rw (p, q) ]
    ]

pub xor_assoc : (a b c : ℕ) → bit_xor (bit_xor a b) c ≡ bit_xor a (bit_xor b c)
xor_assoc a b c = digits_ext _ _ λ k.
    rw (digit-xor (bit_xor a b) c k, digit-xor a b k, digit-xor a (bit_xor b c) k, digit-xor b c k)
      (grouped k)
  where
    grouped :
        (k : ℕ)
        → bit_xor (bit_xor (digit a k) (digit b k)) (digit c k)
          ≡ bit_xor (digit a k) (bit_xor (digit b k) (digit c k))
    grouped k = elim (digit-cases a k) [
      | inl p ↦ elim (digit-cases b k) [
        | inl q ↦ elim (digit-cases c k) [ inl r ↦ rw (p, q, r) | inr r ↦ rw (p, q, r) ]
        | inr q ↦ elim (digit-cases c k) [ inl r ↦ rw (p, q, r) | inr r ↦ rw (p, q, r) ]
      ]
      | inr p ↦ elim (digit-cases b k) [
        | inl q ↦ elim (digit-cases c k) [ inl r ↦ rw (p, q, r) | inr r ↦ rw (p, q, r) ]
        | inr q ↦ elim (digit-cases c k) [ inl r ↦ rw (p, q, r) | inr r ↦ rw (p, q, r) ]
      ]
    ]

pub xor_self : (a : ℕ) → bit_xor a a ≡ 0
xor_self a = digits_ext _ _ λ k. rw (digit-xor a a k) (cleared k)
  where
    cleared : (k : ℕ) → bit_xor (digit a k) (digit a k) ≡ digit 0 k
    cleared k = rw (digit-of_zero k) (elim (digit-cases a k) [ inl p ↦ rw p | inr p ↦ rw p ])

digit-ones : (w k : ℕ) → k < w → digit (2 ^ w - 1) k ≡ 1
digit-ones zero k h = absurd (omega arith)
digit-ones (suc w) zero h = digit-zero (2 ^ suc w - 1) ∙ omega (arith, pow-suc 2 w, one-le-pow w 2)
digit-ones (suc w) (suc k) h =
    rw (digit-suc (2 ^ suc w - 1) k, halved) (digit-ones w k (omega arith))
  where
    halved : (2 ^ suc w - 1) / 2 ≡ 2 ^ w - 1
    halved = omega (arith, pow-suc 2 w, one-le-pow w 2)

-- Cutting to `w` digits leaves each of them as it is.
pub digit-mod : (x w k : ℕ) → k < w → digit (x % 2 ^ w) k ≡ digit x k
digit-mod x w k h =
    rw (← and_low w x, digit-op bit_and-IsDigitwise k x (2 ^ w - 1), digit-ones w k h)
      (elim (digit-cases x k) [ inl p ↦ rw p | inr p ↦ rw p ])

-- A number has no digit from its width on.
pub digit-of_lt : (w x : ℕ) → x < 2 ^ w → digit x w ≡ 0
unfolding digit
digit-of_lt w x h = let e : x / 2 ^ w ≡ 0 = grind arith in rw e

pub digit-div : (x s k : ℕ) → digit (x / 2 ^ s) k ≡ digit x (s + k)
digit-div x zero k = ap₂ digit (omega arith) (omega arith)
digit-div x (suc s) k =
    digit (x / 2 ^ suc s) k
    ≡⟨ ap (λ t. digit t k)
        (ap (λ t. x / t) (omega (arith, pow-suc 2 s)) ∙ sym (div-div-eq-div-mul x 2 (2 ^ s))) ⟩
      digit (x / 2 / 2 ^ s) k
    ≡⟨ digit-div (x / 2) s k ⟩ digit (x / 2) (s + k)
    ≡⟨ sym (digit-suc x (s + k)) ⟩ digit x (suc (s + k))
    ≡⟨ ap (digit x) (omega arith) ⟩ digit x (suc s + k) ∎
