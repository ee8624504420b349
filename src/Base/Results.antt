-- ===== src/Base/Results.antt =====
-- What a call ends in: a value, an `Err` with its message, a panic, or no end at all.
use Prim.Native.String.{String}
use mathlib.Core.Path.{◌≡◌, refl}
use mathlib.Core.Option.{Option, none, some}

-- `hang` is a loop that is known not to end, or that has used up its fuel.
pub data Outcome {ℓ} (A : Type ℓ) : Type ℓ where
  ok : A → Outcome A
  err : String → Outcome A
  panic : Outcome A
  hang : Outcome A

infixl 5 ◌>>=◌
abbrev pub ◌>>=◌ {ℓ κ} : {A : Type ℓ} {B : Type κ} → Outcome A → (A → Outcome B) → Outcome B
hang >>= _ = hang
panic >>= _ = panic
err message >>= _ = err message
ok value >>= next = next value

-- `.unwrap()` and `.expect(…)`: an error becomes a panic.
abbrev pub expect {ℓ} : {A : Type ℓ} → Outcome A → Outcome A
expect (ok a) = ok a
expect (err e) = panic
expect panic = panic
expect hang = hang

abbrev pub expect_some {ℓ} : {A : Type ℓ} → Option A → Outcome A
expect_some none = panic
expect_some (some a) = ok a

-- A bind that gave a value ran both parts.
pub >>=-eq-ok {ℓ κ} :
    {A : Type ℓ} {B : Type κ} (first : Outcome A) (next : A → Outcome B) {b : B}
    → (first >>= next) ≡ ok b
    → (a : A) × (first ≡ ok a) × (next a ≡ ok b)
>>=-eq-ok hang _ e = cc
>>=-eq-ok panic _ e = cc
>>=-eq-ok (err message) _ e = cc
>>=-eq-ok (ok value) next e = (value, refl, e)

-- A value that was unwrapped was there.
pub expect-eq-ok {ℓ} : {A : Type ℓ} (m : Outcome A) {a : A} → expect m ≡ ok a → m ≡ ok a
expect-eq-ok (ok a) h = h
expect-eq-ok (err e) h = cc
expect-eq-ok panic h = cc
expect-eq-ok hang h = cc

-- The call ends.
pub data Ends {ℓ} {A : Type ℓ} : Outcome A → Type ℓ where
  gave : (a : A) → Ends (ok a)
  failed : (message : String) → Ends (err message)
  panicked : Ends panic

pub Ends->>= {ℓ κ} :
    {A : Type ℓ} {B : Type κ} (first : Outcome A) (next : A → Outcome B)
    → Ends first
    → ((a : A) → Ends (next a))
    → Ends (first >>= next)
Ends->>= _ next (gave a) k = k a
Ends->>= _ next (failed message) k = failed message
Ends->>= _ next panicked k = panicked

pub Ends-expect {ℓ} : {A : Type ℓ} (m : Outcome A) → Ends m → Ends (expect m)
Ends-expect _ (gave a) = gave a
Ends-expect _ (failed message) = panicked
Ends-expect _ panicked = panicked

pub Ends-expect_some {ℓ} : {A : Type ℓ} (o : Option A) → Ends (expect_some o)
Ends-expect_some none = panicked
Ends-expect_some (some a) = gave a
