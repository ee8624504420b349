-- ===== src/Base/Io.antt =====
-- Code that changes a state, and may fail: the state goes in and comes out.
use mathlib.Core.Path.{◌≡◌, refl, ap}
use ferr_os.Base.Results.{Outcome, ok, err, panic, hang}

abbrev pub Io : Type 0 → Type 0 → Type 0
Io S A = S → Outcome (A × S)

infixl 5 ◌>>=◌ ◌>>◌
abbrev pub ◌>>=◌ : {S A B : Type 0} → Io S A → (A → Io S B) → Io S B
◌>>=◌ m next s = elim (m s) [
  | ok (a, s') ↦ next a s'
  | err message ↦ err message
  | panic ↦ panic
  | hang ↦ hang
]

abbrev pub ◌>>◌ : {S A B : Type 0} → Io S A → Io S B → Io S B
first >> second = first >>= λ _. second

module _ {S : Type 0} where
  abbrev pub pure : {A : Type 0} → A → Io S A
  pure a s = ok (a, s)

  abbrev pub abort : {A : Type 0} → Io S A
  abort s = panic

  abbrev pub gets : {A : Type 0} → (S → A) → Io S A
  gets f s = ok (f s, s)

  abbrev pub modify : (S → S) → Io S (Unit {0})
  modify f s = ok (tt, f s)

-- The call gives a value, and this holds of it and of the new state.
pub data Gives {S A : Type 0} (P : A → S → Type 0) : Outcome (A × S) → Type 0 where
  gives : {a : A} {s : S} → P a s → Gives P (ok (a, s))

module _ {S A B : Type 0} {P : A → S → Type 0} {Q : B → S → Type 0} where
  pub Gives-bind :
      (m : Io S A) (next : A → Io S B) (s : S)
      → Gives P (m s)
      → ((a : A) (s' : S) → P a s' → Gives Q (next a s'))
      → Gives Q ((m >>= next) s)
  Gives-bind m next s h rest = bind (m s) h
    where
      bind :
          (r : Outcome (A × S))
          → Gives P r
          → Gives Q (elim r [
            | ok (a, s') ↦ next a s'
            | err message ↦ err message
            | panic ↦ panic
            | hang ↦ hang
          ])
      bind r (gives p) = rest _ _ p

pub Gives-map :
    {S A : Type 0} {P Q : A → S → Type 0} {r : Outcome (A × S)}
    → Gives P r
    → ((a : A) (s : S) → P a s → Q a s)
    → Gives Q r
Gives-map (gives p) k = gives (k _ _ p)

-- A sequence that gave a value ran both parts.
pub io-eq-ok :
    {S A B : Type 0} (m : Io S A) (next : A → Io S B) (s : S) {b : B × S}
    → (m >>= next) s ≡ ok b
    → (a : A) × (s' : S) × (m s ≡ ok (a, s')) × (next a s' ≡ ok b)
io-eq-ok {S} {A} {B} m next s {b} h = run (m s) h
  where
    run :
        (r : Outcome (A × S))
        → elim r [
          | ok (a, s') ↦ next a s'
          | err message ↦ err message
          | panic ↦ panic
          | hang ↦ hang
        ]
          ≡ ok b
        → (a : A) × (s' : S) × (r ≡ ok (a, s')) × (next a s' ≡ ok b)
    run (ok (a, s')) h = (a, s', refl, h)
    run (err message) h = cc
    run panic h = cc
    run hang h = cc

module _ {S A B : Type 0} (m : Io S A) (next : A → Io S B) (s : S) where
  abbrev after : Outcome (A × S) → Outcome (B × S)
  after r = elim r [
    | ok (a, s') ↦ next a s'
    | err message ↦ err message
    | panic ↦ panic
    | hang ↦ hang
  ]

  -- A sequence by what its first part gives.
  pub io-ok : {a : A} {s' : S} → m s ≡ ok (a, s') → (m >>= next) s ≡ next a s'
  io-ok e = ap after e

  pub io-panic : m s ≡ panic → (m >>= next) s ≡ panic
  io-panic e = ap after e
