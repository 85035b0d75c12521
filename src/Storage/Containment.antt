-- ===== src/Storage/Containment.antt =====
-- A key names nothing outside of its area's directory (internal/storage/storage.go, local.go).
use mathlib.Core.List.{append-nil, append_assoc}
use video_streaming_service.Common.{
  ℕ, ◌≡◌, ◌≢◌, ◌⊎◌, inl, inr, refl, sym, ap, ◌∙◌, Bool, false, List, [], ◌∷◌, ◌++◌, String, any,
  All, ok, arith, ◌==◌, if◌then◌else◌,
}
use video_streaming_service.Common.Text.{codes}
use video_streaming_service.Storage.{
  Chars, chars_eq, dot_dot, push_head, split, cut, is_idle, validate_key, CleanPath, clean_from,
  clean, join, Local, resolve,
}

-- The segments that Clean keeps.
abbrev kept : List Chars → List Chars
kept [] = []
kept (s ∷ ss) = let rest = kept ss in if is_idle s then rest else s ∷ rest

-- A segment that names an entry of a directory: neither "", "." nor "..".
abbrev pub IsPlain : Chars → Type 0
IsPlain s = (is_idle s ≡ false) × (chars_eq s dot_dot ≡ false)

abbrev climbs : List Chars → Bool
climbs ss = any (chars_eq dot_dot) ss

chars_eq-sym : (a b : Chars) → chars_eq a b ≡ chars_eq b a
chars_eq-sym [] [] = refl
chars_eq-sym [] (d ∷ ds) = refl
chars_eq-sym (c ∷ cs) [] = refl
chars_eq-sym (c ∷ cs) (d ∷ ds) = ground (arith, chars_eq-sym cs ds)

kept-IsPlain : (ss : List Chars) → climbs ss ≡ false → All IsPlain (kept ss)
kept-IsPlain [] h = tt
kept-IsPlain (s ∷ ss) h = ground (arith, chars_eq-sym dot_dot s, kept-IsPlain ss)

clean_from-append :
    (rooted : Bool) (xs ys out : List Chars)
    → clean_from rooted out (xs ++ ys) ≡ clean_from rooted (clean_from rooted out xs) ys
unfolding clean_from
clean_from-append rooted [] ys out = refl
clean_from-append rooted (x ∷ xs) ys out = clean_from-append rooted xs ys _

clean_from-kept :
    (rooted : Bool) (out ss : List Chars)
    → climbs ss ≡ false
    → clean_from rooted out ss ≡ out ++ kept ss
unfolding clean_from
clean_from-kept rooted out [] h = sym (append-nil out)
clean_from-kept rooted out (s ∷ ss) h = ground (
  arith,
  chars_eq-sym dot_dot s,
  clean_from-kept rooted out ss,
  clean_from-kept rooted (out ++ s ∷ []) ss,
  append_assoc out (s ∷ []) (kept ss),
)

abbrev tail_of : List Chars → List Chars
tail_of [] = []
tail_of (s ∷ ss) = ss

push_head-append :
    (c : ℕ) (ss ts : List Chars) → ss ≢ [] → push_head c (ss ++ ts) ≡ push_head c ss ++ ts
unfolding push_head
push_head-append c [] ts h = absurd (h refl)
push_head-append c (s ∷ ss) ts h = refl

split-ne-nil : (cs : Chars) → split cs ≢ []
unfolding split push_head
split-ne-nil [] h = cc
split-ne-nil (c ∷ cs) h = ground (arith, split-ne-nil cs)

split-append : (xs ys : Chars) → split (xs ++ b'/' ∷ ys) ≡ split xs ++ split ys
unfolding split
split-append [] ys = refl
split-append (x ∷ xs) ys =
    ground (arith, split-append xs ys, push_head-append x (split xs) (split ys) (split-ne-nil xs))

tail-push_head : (c : ℕ) (ss : List Chars) → tail_of (push_head c ss) ≡ tail_of ss
unfolding push_head
tail-push_head c [] = refl
tail-push_head c (s ∷ ss) = refl

-- What follows the first separator climbs only if the key does.
cut-climbs : (cs : Chars) → climbs (tail_of (split cs)) ≡ false → climbs (split (cut cs).1) ≡ false
unfolding split cut
cut-climbs [] h = refl
cut-climbs (c ∷ cs) h = ground (arith, tail-push_head c (split cs), cut-climbs cs)

climbs-tail : (ss : List Chars) → climbs ss ≡ false → climbs (tail_of ss) ≡ false
climbs-tail [] h = refl
climbs-tail (s ∷ ss) h = ground arith

-- A path below the directory of another: the same segments, then plain ones.
pub record IsWithin (dir p : CleanPath) : Type 0 where
  pub below : List Chars
  pub rooted : p.rooted ≡ dir.rooted
  pub segments : p.segments ≡ dir.segments ++ below
  pub plain : All IsPlain below

clean-IsWithin :
    (c : ℕ) (cs rest : Chars)
    → climbs (split rest) ≡ false
    → IsWithin (clean (c ∷ cs)) (clean (c ∷ cs ++ b'/' ∷ rest))
unfolding clean
clean-IsWithin c cs rest h = record {
  below = kept (split rest);
  rooted = refl;
  segments =
      ap (clean_from (c == b'/') []) (split-append (c ∷ cs) rest)
      ∙ clean_from-append (c == b'/') (split (c ∷ cs)) (split rest) []
      ∙ clean_from-kept (c == b'/') _ (split rest) h;
  plain = kept-IsPlain (split rest) h;
}

join-IsWithin :
    (dir rest : Chars)
    → dir ≢ []
    → climbs (split rest) ≡ false
    → IsWithin (clean dir) (join dir rest)
unfolding join
join-IsWithin [] rest named h = absurd (named refl)
join-IsWithin (c ∷ cs) [] named h = record {
  below = [];
  rooted = refl;
  segments = sym (append-nil _);
  plain = tt;
}
join-IsWithin (c ∷ cs) (d ∷ ds) named h = clean-IsWithin c cs (d ∷ ds) h

validate_key-climbs : (key : String) → validate_key key ≡ ok tt → climbs (split (codes key)) ≡ false
unfolding validate_key
validate_key-climbs key h = ground arith

resolve-ok :
    (l : Local) (key : String) (p : CleanPath)
    → resolve l key ≡ ok p
    → (climbs (split (codes key)) ≡ false)
      × ((p ≡ join (codes l.root) (codes key))
          ⊎ ((p ≡ join (codes l.transcoded) (cut (codes key)).1)
              ⊎ (p ≡ join (codes l.thumbnails) (cut (codes key)).1)))
unfolding resolve
resolve-ok l key p h = ground (arith, validate_key-climbs key)

-- A key that resolves at all, whatever it says, resolves to a path inside the upload directory or one
-- of the two mounted ones: the directory's own segments, then only names of entries, none of them
-- `..`. The three directories are configured, none as the empty text.
pub resolve-IsWithin :
    (l : Local) (key : String) (p : CleanPath)
    → codes l.root ≢ []
    → codes l.transcoded ≢ []
    → codes l.thumbnails ≢ []
    → resolve l key ≡ ok p
    → IsWithin (clean (codes l.root)) p
      ⊎ (IsWithin (clean (codes l.transcoded)) p ⊎ IsWithin (clean (codes l.thumbnails)) p)
resolve-IsWithin l key p root transcoded thumbnails h =
    let (level, places) = resolve-ok l key p h in
    let rest_level = cut-climbs (codes key) (climbs-tail (split (codes key)) level) in
    elim places [
      | inl e ↦ inl (rw e (join-IsWithin (codes l.root) (codes key) root level))
      | inr (inl e) ↦ inr (
          inl (rw e (join-IsWithin (codes l.transcoded) (cut (codes key)).1 transcoded rest_level)))
      | inr (inr e) ↦ inr (
          inr (rw e (join-IsWithin (codes l.thumbnails) (cut (codes key)).1 thumbnails rest_level)))
    ]
