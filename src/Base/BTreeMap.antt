-- ===== src/Base/BTreeMap.antt =====
-- The standard library's ordered map from numbers, as the list of its entries in key order.
use Prim.Native.Nat.{ℕ}
use mathlib.Core.Path.{◌≡◌, refl}
use mathlib.Core.Logic.{◌≢◌}
use mathlib.Core.Bool.{Bool, true, false}
use mathlib.Core.Option.{Option, none, some}
use mathlib.Core.List.{List, [], ◌∷◌}
use native.Mathlib.Omega.{arith}
use ferr_os.Base.Tests.{ltb, ◌==◌, if◌then◌else◌, ==_self, ne→not_==}

abbrev pub BTreeMap {ℓ} : Type ℓ → Type ℓ
BTreeMap A = List (ℕ × A)

module _ {ℓ} {A : Type ℓ} where
  unfoldable pub get : ℕ → BTreeMap A → Option A
  get key [] = none
  get key ((k, v) ∷ entries) = let rest = get key entries in if key == k then some v else rest

  unfoldable pub contains_key : ℕ → BTreeMap A → Bool
  unfolding get
  contains_key key entries = elim (get key entries) [ none ↦ false | some v ↦ true ]

  unfoldable pub insert : ℕ → A → BTreeMap A → BTreeMap A
  insert key value [] = (key, value) ∷ []
  insert key value ((k, v) ∷ entries) =
      let rest = insert key value entries in
      if ltb key k
      then (key, value) ∷ (k, v) ∷ entries
      else if key == k
      then (key, value) ∷ entries
      else (k, v) ∷ rest

  unfoldable pub remove : ℕ → BTreeMap A → BTreeMap A
  remove key [] = []
  remove key ((k, v) ∷ entries) =
      let rest = remove key entries in if key == k then rest else (k, v) ∷ rest

  pub get-insert_self : (m : BTreeMap A) (k : ℕ) (a : A) → get k (insert k a m) ≡ some a
  unfolding get insert
  get-insert_self [] k a = rw (==_self k)
  get-insert_self ((j, v) ∷ m) k a = ground (arith, get-insert_self m k a, ==_self k)

  pub get-insert_ne : (m : BTreeMap A) (k j : ℕ) (a : A) → j ≢ k → get j (insert k a m) ≡ get j m
  unfolding get insert
  get-insert_ne [] k j a h = rw (ne→not_== j k h)
  get-insert_ne ((i, v) ∷ m) k j a h = ground (arith, get-insert_ne m k j a h, ne→not_== j k h)

  pub get-remove_self : (m : BTreeMap A) (k : ℕ) → get k (remove k m) ≡ none
  unfolding get remove
  get-remove_self [] k = refl
  get-remove_self ((j, v) ∷ m) k = ground (arith, get-remove_self m k)

  pub get-remove_ne : (m : BTreeMap A) (k j : ℕ) → j ≢ k → get j (remove k m) ≡ get j m
  unfolding get remove
  get-remove_ne [] k j h = refl
  get-remove_ne ((i, v) ∷ m) k j h = ground (arith, get-remove_ne m k j h)
