-- ===== src/Storage/Writes.antt =====
-- What a save leaves on the disk (internal/storage/local.go).
use video_streaming_service.Common.{
  ℕ, ℤ, pos, negsuc, lt_int, ◌≡◌, ◌⊎◌, inl, inr, refl, true, false, List, [], ◌∷◌, Option, none,
  some, String, ok, err, Error, arith, Result-cases,
}
use video_streaming_service.Storage.{
  Chars, chars_eq, CleanPath, segments_eq, path_eq, Files, put, Io, is_short, save_at, Local,
  resolve, save,
}

chars_eq_self : (s : Chars) → chars_eq s s ≡ true
chars_eq_self [] = refl
chars_eq_self (c ∷ cs) = ground (arith, chars_eq_self cs)

segments_eq_self : (ss : List Chars) → segments_eq ss ss ≡ true
unfolding segments_eq
segments_eq_self [] = refl
segments_eq_self (s ∷ ss) = ground (arith, chars_eq_self s, segments_eq_self ss)

put_self : (p : CleanPath) (file : Option ℕ) (files : Files) → put p file files p ≡ file
unfolding put path_eq
put_self p file files = ground (arith, segments_eq_self p.segments)

put-other :
    (p q : CleanPath) (file : Option ℕ) (files : Files)
    → path_eq p q ≡ false
    → put p file files q ≡ files q
unfolding put
put-other p q file files h = ground (arith, h)

-- The announced size, if it is not negative, is that number of bytes.
abbrev pub Announces : ℤ → ℕ → Type 0
Announces size n = (size ≡ pos n) ⊎ (lt_int size (pos 0) ≡ true)

is_short-Announces : (size : ℤ) (n : ℕ) → is_short size n ≡ false → Announces size n
is_short-Announces (pos m) n h = inl (ground (arith, h))
is_short-Announces (negsuc m) n h = inr refl

save_at-ok :
    (p : CleanPath) (size : ℤ) (io : Io) (files : Files)
    → (save_at p size io files).0 ≡ ok tt
    → ((save_at p size io files).1 p ≡ some io.offers)
      × (io.breaks_at ≡ none)
      × (io.closes ≡ true)
      × Announces size io.offers
unfolding save_at
save_at-ok p size io files h =
    let whole : io.breaks_at ≡ none = ground arith in
    let full : is_short size io.offers ≡ false = ground (arith, whole) in
    (
      ground (arith, whole, put_self p (some io.offers) files),
      whole,
      ground arith,
      is_short-Announces size io.offers full,
    )

-- A save that succeeds has read its source to the end without an error and has flushed the file: at the
-- key's path stands a file of all the bytes of the source, and their number is the size that was announced
-- (a negative size announces none).
pub save-ok :
    (l : Local) (key : String) (size : ℤ) (io : Io) (files : Files)
    → (save l key size io files).0 ≡ ok tt
    → (p : CleanPath) × (resolve l key ≡ ok p)
      × ((save l key size io files).1 p ≡ some io.offers)
      × (io.breaks_at ≡ none)
      × (io.closes ≡ true)
      × Announces size io.offers
unfolding save
save-ok l key size io files h = elim (Result-cases (resolve l key)) [
  | inr (e, refused) ↦ absurd (ground (arith, refused))
  | inl (p, resolved) ↦
      let done : (save_at p size io files).0 ≡ ok tt = ground (arith, resolved) in
      let (stored, whole, flushed, full) = save_at-ok p size io files done in
      (p, resolved, ground (arith, resolved, stored), whole, flushed, full)
]

save_at-err :
    (p q : CleanPath) (size : ℤ) (io : Io) (files : Files) (e : Error)
    → io.removes ≡ true
    → (save_at p size io files).0 ≡ err e
    → ((save_at p size io files).1 q ≡ files q)
      ⊎ ((path_eq p q ≡ true) × ((save_at p size io files).1 q ≡ none))
unfolding save_at put
save_at-err p q size io files e removes h = ground arith

-- A save that fails, and whose removal of the file works, leaves no part of a file: every path holds
-- what it held before, but that the key's own path may hold nothing any more.
pub save-err :
    (l : Local) (key : String) (size : ℤ) (io : Io) (files : Files) (e : Error) (q : CleanPath)
    → io.removes ≡ true
    → (save l key size io files).0 ≡ err e
    → ((save l key size io files).1 q ≡ files q)
      ⊎ ((p : CleanPath) × (resolve l key ≡ ok p)
          × (path_eq p q ≡ true)
          × ((save l key size io files).1 q ≡ none))
unfolding save
save-err l key size io files e q removes h = elim (Result-cases (resolve l key)) [
  | inr (_, refused) ↦ inl (ground (arith, refused))
  | inl (p, resolved) ↦
      let failed : (save_at p size io files).0 ≡ err e = ground (arith, resolved) in
      elim (save_at-err p q size io files e removes failed) [
        | inl same ↦ inl (ground (arith, resolved, same))
        | inr (here, gone) ↦ inr (p, resolved, here, ground (arith, resolved, gone))
      ]
]
