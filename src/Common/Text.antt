-- ===== src/Common/Text.antt =====
-- Texts as the sequence of their code points, and the functions of Go's package strings that the
-- source uses.
use Prim.Native.Char.{code}
use Prim.Native.Nat.{ℕ}
use Prim.Native.String.{String}
use mathlib.Core.Path.{◌≡◌, refl}
use mathlib.Core.Bool.{Bool, false, ◌&&◌, ◌||◌}
use mathlib.Core.Option.{Option, none, some}
use mathlib.Core.List.{List, [], ◌∷◌}
use text.Mathlib.Text.{◌==◌ as str_eq}
use video_streaming_service.Common.Tests.{leb, ◌==◌, if◌then◌else◌}

-- The runes of a text.
abbrev pub codes : String → List ℕ
codes String.[] = []
codes (String.◌∷◌ c s) = code c ∷ codes s

-- Go's `+` on texts
abbrev pub concat : String → String → String
concat String.[] t = t
concat (String.◌∷◌ c s) t = String.◌∷◌ c (concat s t)

-- unicode.IsSpace
pub is_space : ℕ → Bool
is_space c =
    (leb 9 c && leb c 13)
    || c == 32
    || c == 0x85
    || c == 0xa0
    || c == 0x1680
    || (leb 0x2000 c && leb c 0x200a)
    || c == 0x2028
    || c == 0x2029
    || c == 0x202f
    || c == 0x205f
    || c == 0x3000

-- strings.TrimLeftFunc(s, unicode.IsSpace)
pub trim_left : String → String
trim_left String.[] = String.[]
trim_left (String.◌∷◌ c s) =
    let rest = trim_left s in if is_space (code c) then rest else String.◌∷◌ c s

-- strings.TrimRightFunc(s, unicode.IsSpace)
pub trim_right : String → String
trim_right String.[] = String.[]
trim_right (String.◌∷◌ c s) =
    let rest = trim_right s in
    if is_space (code c) && str_eq rest "" then String.[] else String.◌∷◌ c rest

-- strings.TrimSpace
unfoldable pub trim_space : String → String
unfolding trim_left trim_right is_space
trim_space s = trim_right (trim_left s)

trim_test : trim_space "  a b \t\n" ≡ "a b"
unfolding trim_space
trim_test = refl

-- strings.HasPrefix and what strings.TrimPrefix leaves: the rest of the text, if it begins so.
unfoldable pub strip_prefix : String → String → Option String
strip_prefix String.[] s = some s
strip_prefix (String.◌∷◌ p ps) String.[] = none
strip_prefix (String.◌∷◌ p ps) (String.◌∷◌ c s) =
    if code p == code c then strip_prefix ps s else none

-- strings.Contains of a one-character text, by its code
unfoldable pub contains_code : ℕ → String → Bool
contains_code k String.[] = false
contains_code k (String.◌∷◌ c s) = code c == k || contains_code k s
