-- ===== src/Storage.antt =====
-- internal/storage: keys (storage.go) and the filesystem store (local.go) on a system whose separator
-- is `/`. A text is taken apart as the list of its codes; path/filepath's Clean and Join are written
-- out over the segments of a path.
pub mod Containment
pub mod Writes
use video_streaming_service.Common.{
  ℕ, ◌≡◌, Bool, true, false, not, ◌&&◌, ◌||◌, List, [], ◌∷◌, ◌++◌, Option, none, some, String,
  str_eq, any, Result, Done, ok, err, Error, other, storage_key_invalid, ℤ, pos, negsuc, ltb,
  lt_int, ◌==◌, if◌then◌else◌, ◌>>=◌, ◌>>◌, fail_if,
}
use video_streaming_service.Common.Text.{codes, contains_code}

-- One segment of a path, or a whole text.
abbrev pub Chars : Type 0
Chars = List ℕ

abbrev pub chars_eq : Chars → Chars → Bool
chars_eq [] [] = true
chars_eq (c ∷ cs) (d ∷ ds) = c == d && chars_eq cs ds
chars_eq _ _ = false

abbrev pub dot : Chars
dot = b'.' ∷ []

abbrev pub dot_dot : Chars
dot_dot = b'.' ∷ b'.' ∷ []

unfoldable pub push_head : ℕ → List Chars → List Chars
push_head c [] = (c ∷ []) ∷ []
push_head c (s ∷ ss) = (c ∷ s) ∷ ss

-- `strings.Split(_, "/")`
unfoldable pub split : Chars → List Chars
split [] = [] ∷ []
split (c ∷ cs) = let rest = split cs in if c == b'/' then [] ∷ rest else push_head c rest

-- `strings.Cut(_, "/")`; the second part is "" where there is no separator.
unfoldable pub cut : Chars → Chars × Chars
cut [] = ([], [])
cut (c ∷ cs) = let (area, rest) = cut cs in if c == b'/' then ([], cs) else (c ∷ area, rest)

abbrev pub is_rooted : Chars → Bool
is_rooted [] = false
is_rooted (c ∷ cs) = c == b'/'

unfoldable pub validate_key : String → Done
validate_key key =
    let cs = codes key in
    if str_eq key "" || (is_rooted cs || (contains_code 92 key || contains_code b':' key))
    then err storage_key_invalid
    else if any (chars_eq dot_dot) (split cs)
    then err storage_key_invalid
    else ok tt

-- A path that filepath.Clean has brought to its shortest form.
pub record CleanPath : Type 0 where
  pub rooted : Bool
  pub segments : List Chars

-- What `..` does to the segments so far.
unfoldable pub go_up : Bool → List Chars → List Chars
go_up rooted [] = if rooted then [] else dot_dot ∷ []
go_up rooted (s ∷ []) = if chars_eq s dot_dot then s ∷ dot_dot ∷ [] else []
go_up rooted (s ∷ t ∷ ss) = let rest = go_up rooted (t ∷ ss) in s ∷ rest

-- A segment that Clean drops.
abbrev pub is_idle : Chars → Bool
is_idle s = chars_eq s [] || chars_eq s dot

unfoldable pub clean_from : Bool → List Chars → List Chars → List Chars
unfolding go_up
clean_from rooted out [] = out
clean_from rooted out (s ∷ ss) =
    clean_from rooted
      (if is_idle s then out else if chars_eq s dot_dot then go_up rooted out else out ++ s ∷ []) ss

unfoldable pub clean : Chars → CleanPath
unfolding clean_from split
clean cs = record { rooted = is_rooted cs; segments = clean_from (is_rooted cs) [] (split cs) }

-- `filepath.Join` of two texts: the empty ones are left out.
unfoldable pub join : Chars → Chars → CleanPath
join [] rest = clean rest
join dir [] = clean dir
join dir rest = clean (dir ++ b'/' ∷ rest)

-- `Local`: the upload directory, and the two areas that have their own.
pub record Local : Type 0 where
  pub root : String
  pub transcoded : String
  pub thumbnails : String

abbrev pub mount : Local → Chars → Option String
mount l area =
    if chars_eq area (codes "transcoded")
    then some l.transcoded
    else if chars_eq area (codes "thumbnails")
    then some l.thumbnails
    else none

-- `resolve` for a key that passes; `none` is an area without a directory of its own.
locate : Local → Chars → Chars → Option String → CleanPath
locate l key rest (some dir) = join (codes dir) rest
locate l key rest none = join (codes l.root) key

unfoldable pub resolve : Local → String → Result CleanPath
unfolding locate
resolve l key = do
  validate_key key
  let (area, rest) = cut (codes key)
  ok (locate l (codes key) rest (mount l area))

segments_eq : List Chars → List Chars → Bool
segments_eq [] [] = true
segments_eq (s ∷ ss) (t ∷ ts) = chars_eq s t && segments_eq ss ts
segments_eq _ _ = false

unfoldable pub path_eq : CleanPath → CleanPath → Bool
unfolding segments_eq
path_eq p q = (if p.rooted then q.rooted else not q.rooted) && segments_eq p.segments q.segments

-- The files by path, each by its number of bytes.
abbrev pub Files : Type 0
Files = CleanPath → Option ℕ

unfoldable pub put : CleanPath → Option ℕ → Files → Files
put p file files q = if path_eq p q then file else files q

-- How the calls of packages os and io turn out: `offers` is the number of bytes that the reader gives
-- until its end, and `breaks_at` the number after which the copy meets an error, if it does. io.Copy stops
-- at the one or the other.
pub record Io : Type 0 where
  pub makes_dir : Bool
  pub creates : Bool
  pub offers : ℕ
  pub breaks_at : Option ℕ
  pub closes : Bool
  pub removes : Bool

-- The two results of io.Copy: the bytes that were written, and whether it met no error
abbrev pub written_of : ℕ → Option ℕ → ℕ
written_of offers none = offers
written_of offers (some n) = n

abbrev pub is_whole : Option ℕ → Bool
is_whole none = true
is_whole (some n) = false

abbrev pub remove : Io → CleanPath → Files → Files
remove io p files = if io.removes then put p none files else files

-- `size >= 0 && written != size`
abbrev pub is_short : ℤ → ℕ → Bool
is_short (pos size) written = not (written == size)
is_short (negsuc _) written = false

-- `Save` once the key is resolved.
unfoldable pub save_at : CleanPath → ℤ → Io → Files → Done × Files
save_at p size io files =
    if not io.makes_dir
    then (err (other "creating directory for"), files)
    else if not io.creates
    then (err (other "creating"), files)
    else let copied = written_of io.offers io.breaks_at in
      let written = put p (some copied) files in
      if not (is_whole io.breaks_at)
      then (err (other "writing"), remove io p written)
      else if not io.closes
      then (err (other "flushing"), remove io p written)
      else if is_short size copied
      then (err (other "writing"), remove io p written)
      else (ok tt, written)

unfoldable pub save : Local → String → ℤ → Io → Files → Done × Files
unfolding save_at
save l key size io files = elim (resolve l key) [
  | err e ↦ (err e, files)
  | ok p ↦ save_at p size io files
]
