-- ===== src/Common/Rows/Keys.antt =====
-- Tables with a key that is a number: a row is found, written and removed by its key.
use Prim.Native.Nat.{ℕ}
use mathlib.Core.Path.{◌≡◌, refl}
use mathlib.Core.Option.{Option, none, some}
use mathlib.Core.Option as Option
use mathlib.Core.List.{List, [], ◌∷◌, ◌++◌}
use native.Mathlib.Omega.{arith}
use video_streaming_service.Common.Tests.{◌==◌, if◌then◌else◌}
use video_streaming_service.Common.Rows.{find, update_first, without}

module _ {ℓ} {A : Type ℓ} (key : A → ℕ) where
  -- WHERE id = $1
  unfoldable pub lookup : ℕ → List A → Option A
  lookup i xs = find (λ x. key x == i) xs

  unfoldable pub write : ℕ → (A → A) → List A → List A
  write i f xs = update_first (λ x. key x == i) f xs

  unfoldable pub erase : ℕ → List A → List A
  erase i xs = without (λ x. key x == i) xs

  pub lookup-write :
      (f : A → A)
      → ((x : A) → key (f x) ≡ key x)
      → (i j : ℕ) (xs : List A)
      → lookup j (write i f xs) ≡ (if i == j then Option.map f (lookup i xs) else lookup j xs)
  unfolding lookup write find update_first
  lookup-write f same i j [] = ground arith
  lookup-write f same i j (y ∷ ys) = ground (arith, same y, lookup-write f same i j ys)

  pub lookup-erase :
      (i j : ℕ) (xs : List A) → lookup j (erase i xs) ≡ (if i == j then none else lookup j xs)
  unfolding lookup erase find without
  lookup-erase i j [] = ground arith
  lookup-erase i j (y ∷ ys) = ground (arith, lookup-erase i j ys)

  -- A write that the column and the key do not see.
  pub lookup-write_same :
      {B : Type 0} (column : A → B) (f : A → A)
      → ((x : A) → key (f x) ≡ key x)
      → ((x : A) → column (f x) ≡ column x)
      → (i j : ℕ) (xs : List A)
      → Option.map column (lookup j (write i f xs)) ≡ Option.map column (lookup j xs)
  unfolding lookup write find update_first
  lookup-write_same column f same kept i j [] = refl
  lookup-write_same column f same kept i j (y ∷ ys) =
      ground (arith, same y, kept y, lookup-write_same column f same kept i j ys)

  pub lookup-append :
      (j : ℕ) (xs : List A) (x : A)
      → lookup (key x) xs ≡ none
      → lookup j (xs ++ x ∷ []) ≡ (if key x == j then some x else lookup j xs)
  unfolding lookup find
  lookup-append j [] x h = refl
  lookup-append j (y ∷ ys) x h = ground (arith, lookup-append j ys x)
