-- ===== src/Prelude/Table.antt =====
-- Database tables: rows with a numeric primary key, in the order of a scan.
use Prim.Native.Nat.{ℕ}
use mathlib.Core.Path.{◌≡◌}
use mathlib.Core.Bool.{Bool, true}
use mathlib.Core.Option.{Option, none, some}
use mathlib.Core.List.{List, [], ◌∷◌}
use native.Mathlib.Omega.{arith}
use navarch.Prelude.Tests.{if◌then◌else◌, ◌==◌}
use navarch.Prelude.Lists.{any}

abbrev pub apply_to {ℓ} : {A : Type ℓ} → (A → A) → Option A → Option A
apply_to f none = none
apply_to f (some x) = some (f x)

module _ {ℓ} {A : Type ℓ} (key : A → ℕ) where
  -- SELECT ... WHERE id = $1
  unfoldable pub row : ℕ → List A → Option A
  row i [] = none
  row i (x ∷ xs) = let rest = row i xs in if key x == i then some x else rest

  -- UPDATE ... SET ... WHERE id = $1
  unfoldable pub update_row : ℕ → (A → A) → List A → List A
  update_row i f [] = []
  update_row i f (x ∷ xs) = (if key x == i then f x else x) ∷ update_row i f xs

  pub row-key : (i : ℕ) (xs : List A) (x : A) → row i xs ≡ some x → key x ≡ i
  unfolding row
  row-key i [] x h = cc
  row-key i (y ∷ ys) x h = ground (arith, row-key i ys x)

  -- An update that keeps the keys is seen by the rows it names and by no other.
  pub row-update_row :
      (f : A → A)
      → ((x : A) → key (f x) ≡ key x)
      → (i j : ℕ) (xs : List A)
      → row j (update_row i f xs) ≡ (if j == i then apply_to f (row j xs) else row j xs)
  unfolding row update_row
  row-update_row f keep i j [] = ground arith
  row-update_row f keep i j (x ∷ xs) = ground (arith, keep x, row-update_row f keep i j xs)

  pub any_of_row :
      (p : A → Bool) (i : ℕ) (xs : List A) (x : A)
      → row i xs ≡ some x
      → p x ≡ true
      → any p xs ≡ true
  unfolding row
  any_of_row p i [] x h k = cc
  any_of_row p i (y ∷ ys) x h k = ground (arith, any_of_row p i ys x)
