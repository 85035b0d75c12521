-- ===== src/Common/Rows.antt =====
-- Tables as lists of rows: what WHERE, COUNT(*), INSERT, UPDATE, DELETE and a page of a listing make of
-- them. A condition on a key of the table holds of one row at most, the first that is found.
pub mod Keys
pub mod Sorting
use Prim.Native.Nat.{ℕ, ◌+◌, ◌≤◌}
use mathlib.Core.Path.{◌≡◌, refl}
use mathlib.Core.Bool.{Bool, true, false}
use mathlib.Core.Logic.{inl, inr}
use mathlib.Core.Option.{Option, none, some}
use mathlib.Core.List.{List, [], ◌∷◌, ◌++◌}
use native.Mathlib.Omega.{arith}
use video_streaming_service.Common.Tests.{if◌then◌else◌, Bool-cases}
use video_streaming_service.Common.Lists.{take, drop}

module _ {ℓ} {A : Type ℓ} where
  -- SELECT ... WHERE: the rows, and the only one
  unfoldable pub filter : (A → Bool) → List A → List A
  filter p [] = []
  filter p (x ∷ xs) = let rest = filter p xs in if p x then x ∷ rest else rest

  unfoldable pub find : (A → Bool) → List A → Option A
  find p [] = none
  find p (x ∷ xs) = let rest = find p xs in if p x then some x else rest

  -- SELECT COUNT(*) ... WHERE
  unfoldable pub count : (A → Bool) → List A → ℕ
  count p [] = 0
  count p (x ∷ xs) = (if p x then 1 else 0) + count p xs

  -- UPDATE ... WHERE, of one row and of all
  unfoldable pub update_first : (A → Bool) → (A → A) → List A → List A
  update_first p f [] = []
  update_first p f (x ∷ xs) = let rest = update_first p f xs in if p x then f x ∷ xs else x ∷ rest

  unfoldable pub update_where : (A → Bool) → (A → A) → List A → List A
  update_where p f [] = []
  update_where p f (x ∷ xs) = (if p x then f x else x) ∷ update_where p f xs

  -- DELETE ... WHERE, of one row and of all
  unfoldable pub remove_first : (A → Bool) → List A → List A
  remove_first p [] = []
  remove_first p (x ∷ xs) = let rest = remove_first p xs in if p x then xs else x ∷ rest

  unfoldable pub without : (A → Bool) → List A → List A
  without p [] = []
  without p (x ∷ xs) = let rest = without p xs in if p x then rest else x ∷ rest

  -- ORDER BY; `before x y` says that `x` may stand in front of `y`.
  unfoldable pub insert : (A → A → Bool) → A → List A → List A
  insert before x [] = x ∷ []
  insert before x (y ∷ ys) =
      let rest = insert before x ys in if before x y then x ∷ y ∷ ys else y ∷ rest

  unfoldable pub sort : (A → A → Bool) → List A → List A
  unfolding insert
  sort before [] = []
  sort before (x ∷ xs) = insert before x (sort before xs)

  -- LIMIT ... OFFSET ...
  unfoldable pub page : ℕ → ℕ → List A → List A
  page limit offset xs = take limit (drop offset xs)

  pub count-append :
      (p : A → Bool) (xs : List A) (x : A)
      → count p (xs ++ x ∷ []) ≡ count p xs + (if p x then 1 else 0)
  unfolding count
  count-append p [] x = omega arith
  count-append p (y ∷ ys) x = omega (arith, count-append p ys x)

  pub count-remove_first :
      (q p : A → Bool) (xs : List A) (x : A)
      → find p xs ≡ some x
      → count q xs ≡ (if q x then 1 else 0) + count q (remove_first p xs)
  unfolding find count remove_first
  count-remove_first q p [] x h = cc
  count-remove_first q p (y ∷ ys) x h = elim (Bool-cases (p y)) [
    | inl hit ↦ ground (arith, hit)
    | inr miss ↦ ground (arith, miss, count-remove_first q p ys x)
  ]

  pub count-update_first :
      (q p : A → Bool) (f : A → A) (xs : List A) (x : A)
      → find p xs ≡ some x
      → count q (update_first p f xs) + (if q x then 1 else 0)
        ≡ count q xs + (if q (f x) then 1 else 0)
  unfolding find count update_first
  count-update_first q p f [] x h = cc
  count-update_first q p f (y ∷ ys) x h = ground (arith, count-update_first q p f ys x)

  -- An update that the condition does not see.
  pub count-update_first_same :
      (q p : A → Bool) (f : A → A) (xs : List A)
      → ((x : A) → q (f x) ≡ q x)
      → count q (update_first p f xs) ≡ count q xs
  unfolding count update_first
  count-update_first_same q p f [] same = refl
  count-update_first_same q p f (y ∷ ys) same =
      ground (arith, same y, count-update_first_same q p f ys same)

  pub find-append :
      (p : A → Bool) (xs : List A) (x : A)
      → find p xs ≡ none
      → find p (xs ++ x ∷ []) ≡ (if p x then some x else none)
  unfolding find
  find-append p [] x h = refl
  find-append p (y ∷ ys) x h = ground (arith, find-append p ys x)

  pub find-append_miss :
      (p : A → Bool) (xs : List A) (x : A) → p x ≡ false → find p (xs ++ x ∷ []) ≡ find p xs
  unfolding find
  find-append_miss p [] x h = rw h refl
  find-append_miss p (y ∷ ys) x h = ground (arith, find-append_miss p ys x h)

  pub count-le :
      (p q : A → Bool) (xs : List A) → ((x : A) → p x ≡ true → q x ≡ true) → count p xs ≤ count q xs
  unfolding count
  count-le p q [] sub = omega arith
  count-le p q (y ∷ ys) sub = elim (Bool-cases (p y)) [
    | inl hit ↦ ground (arith, hit, sub y hit, count-le p q ys sub)
    | inr miss ↦ ground (arith, miss, count-le p q ys sub)
  ]

  pub count-remove_first_le :
      (q p : A → Bool) (xs : List A) → count q (remove_first p xs) ≤ count q xs
  unfolding count remove_first
  count-remove_first_le q p [] = omega arith
  count-remove_first_le q p (y ∷ ys) = ground (arith, count-remove_first_le q p ys)

  pub count_unfound : (p : A → Bool) (xs : List A) → find p xs ≡ none → count p xs ≡ 0
  unfolding count find
  count_unfound p [] h = refl
  count_unfound p (y ∷ ys) h = ground (arith, count_unfound p ys, h)
