-- ===== src/Common/Rows/Sorting.antt =====
-- ORDER BY a number: what an insertion and a removal make of the sorted rows.
use Prim.Native.Nat.{ℕ, ◌≤◌, ◌<◌}
use mathlib.Core.Path.{◌≡◌, refl, ap, ◌∙◌, sym}
use mathlib.Core.Logic.{inl, inr}
use mathlib.Core.Bool.{Bool, true, false}
use mathlib.Core.List.{List, [], ◌∷◌, ◌++◌}
use native.Mathlib.Omega.{arith}
use video_streaming_service.Common.Tests.{leb, Bool-cases, leb→le}
use video_streaming_service.Common.Lists.{All}
use video_streaming_service.Common.Rows.{insert, sort, without}

module _ {ℓ} {A : Type ℓ} (key : A → ℕ) where
  abbrev pub by_key : A → A → Bool
  by_key a b = leb (key a) (key b)

  insert-append :
      (y : A) (zs : List A) (x : A)
      → key y < key x
      → insert by_key y (zs ++ x ∷ []) ≡ insert by_key y zs ++ x ∷ []
  unfolding insert
  insert-append y [] x h = ground (arith, h)
  insert-append y (z ∷ zs) x h = elim (Bool-cases (leb (key y) (key z))) [
    | inl first ↦ rw first refl
    | inr later ↦ rw later (ap (λ r. z ∷ r) (insert-append y zs x h))
  ]

  -- A row beyond all the others goes to the end.
  pub sort-append :
      (xs : List A) (x : A)
      → All (λ y. key y < key x) xs
      → sort by_key (xs ++ x ∷ []) ≡ sort by_key xs ++ x ∷ []
  unfolding sort insert
  sort-append [] x h = refl
  sort-append (y ∷ ys) x (h, hs) = rw (sort-append ys x hs) (insert-append y (sort by_key ys) x h)

  AtLeast : ℕ → List A → Type 0
  AtLeast n xs = All (λ y. n ≤ key y) xs

  IsSorted : List A → Type 0
  unfolding AtLeast
  IsSorted [] = Unit
  IsSorted (x ∷ xs) = AtLeast (key x) xs × IsSorted xs

  weaken-AtLeast : (m n : ℕ) (xs : List A) → m ≤ n → AtLeast n xs → AtLeast m xs
  unfolding AtLeast
  weaken-AtLeast m n [] h hs = tt
  weaken-AtLeast m n (x ∷ xs) h (hx, hs) = (omega (arith, h, hx), weaken-AtLeast m n xs h hs)

  insert-AtLeast :
      (n : ℕ) (x : A) (ys : List A) → n ≤ key x → AtLeast n ys → AtLeast n (insert by_key x ys)
  unfolding AtLeast insert
  insert-AtLeast n x [] h hs = (h, tt)
  insert-AtLeast n x (y ∷ ys) h (hy, hs) = elim (Bool-cases (leb (key x) (key y))) [
    | inl first ↦ rw first (h, (hy, hs))
    | inr later ↦ rw later (hy, insert-AtLeast n x ys h hs)
  ]

  insert-IsSorted : (x : A) (ys : List A) → IsSorted ys → IsSorted (insert by_key x ys)
  unfolding IsSorted AtLeast insert
  insert-IsSorted x [] h = (tt, tt)
  insert-IsSorted x (y ∷ ys) (hy, hs) = elim (Bool-cases (leb (key x) (key y))) [
    | inl first ↦
        rw first
          ((leb→le _ _ first, weaken-AtLeast (key x) (key y) ys (leb→le _ _ first) hy), (hy, hs))
    | inr later ↦
        rw later (insert-AtLeast (key y) x ys (ground (arith, later)) hy, insert-IsSorted x ys hs)
  ]

  sort-IsSorted : (xs : List A) → IsSorted (sort by_key xs)
  unfolding sort IsSorted
  sort-IsSorted [] = tt
  sort-IsSorted (x ∷ xs) = insert-IsSorted x (sort by_key xs) (sort-IsSorted xs)

  module _ (q : A → Bool) where
    without-AtLeast : (n : ℕ) (xs : List A) → AtLeast n xs → AtLeast n (without q xs)
    unfolding AtLeast without
    without-AtLeast n [] h = tt
    without-AtLeast n (x ∷ xs) (h, hs) = elim (Bool-cases (q x)) [
      | inl out ↦ rw out (without-AtLeast n xs hs)
      | inr stays ↦ rw stays (h, without-AtLeast n xs hs)
    ]

    insert_least : (x : A) (ys : List A) → AtLeast (key x) ys → insert by_key x ys ≡ x ∷ ys
    unfolding AtLeast insert
    insert_least x [] h = refl
    insert_least x (y ∷ ys) (h, hs) = ground (arith, h)

    without-insert_out :
        (x : A) (ys : List A) → q x ≡ true → without q (insert by_key x ys) ≡ without q ys
    unfolding without insert
    without-insert_out x [] out = rw out refl
    without-insert_out x (y ∷ ys) out = ground (arith, out, without-insert_out x ys out)

    without-insert :
        (x : A) (ys : List A)
        → q x ≡ false
        → IsSorted ys
        → without q (insert by_key x ys) ≡ insert by_key x (without q ys)
    unfolding without insert IsSorted AtLeast
    without-insert x [] stays h = rw stays refl
    without-insert x (y ∷ ys) stays (hy, hs) = elim (Bool-cases (leb (key x) (key y))) [
      | inl first ↦
          let above = weaken-AtLeast (key x) (key y) ys (leb→le _ _ first) hy in
          let least =
            insert_least x (without q (y ∷ ys))
              (without-AtLeast (key x) (y ∷ ys) (leb→le _ _ first, above)) in
          ground (arith, first, stays, least)
      | inr later ↦ ground (arith, later, stays, without-insert x ys stays hs)
    ]

    -- A removal does not change the order of the others.
    pub sort-without : (xs : List A) → sort by_key (without q xs) ≡ without q (sort by_key xs)
    unfolding without sort
    sort-without [] = refl
    sort-without (x ∷ xs) = elim (Bool-cases (q x)) [
      | inl out ↦ rw out (sort-without xs ∙ sym (without-insert_out x (sort by_key xs) out))
      | inr stays ↦
          rw (stays, sort-without xs)
            (sym (without-insert x (sort by_key xs) stays (sort-IsSorted xs)))
    ]
