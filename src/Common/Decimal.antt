-- ===== src/Common/Decimal.antt =====
-- strconv.FormatInt and strconv.ParseInt in base 10, for 64 bits.
use Prim.Native.Char.{Char, code}
use Prim.Native.Nat.{ℕ, zero, suc, ◌+◌, ◌-◌, ◌*◌, ◌/◌, ◌%◌, ◌^◌, ◌<◌}
use Prim.Native.String.{String, [], ◌∷◌}
use mathlib.Core.Path.{◌≡◌, refl, ap, ◌∙◌}
use mathlib.Core.Bool.{◌&&◌}
use mathlib.Core.Logic.{inl, inr}
use mathlib.Core.Option.{Option, none, some}
use native.Mathlib.Omega.{arith}
use video_streaming_service.Common.Tests.{ltb, leb, ◌==◌, if◌then◌else◌, Bool-cases, ltb→lt}
use video_streaming_service.Common.Integers.{ℤ, pos, negsuc}

-- The character of a digit.
digit : ℕ → Char
digit zero = "0"
digit (suc zero) = "1"
digit (suc (suc zero)) = "2"
digit (suc (suc (suc zero))) = "3"
digit (suc (suc (suc (suc zero)))) = "4"
digit (suc (suc (suc (suc (suc zero))))) = "5"
digit (suc (suc (suc (suc (suc (suc zero)))))) = "6"
digit (suc (suc (suc (suc (suc (suc (suc zero))))))) = "7"
digit (suc (suc (suc (suc (suc (suc (suc (suc zero)))))))) = "8"
digit (suc (suc (suc (suc (suc (suc (suc (suc (suc n))))))))) = "9"

code-digit : (d : ℕ) → d < 10 → code (digit d) ≡ 48 + d
unfolding digit
code-digit zero h = refl
code-digit (suc zero) h = refl
code-digit (suc (suc zero)) h = refl
code-digit (suc (suc (suc zero))) h = refl
code-digit (suc (suc (suc (suc zero)))) h = refl
code-digit (suc (suc (suc (suc (suc zero))))) h = refl
code-digit (suc (suc (suc (suc (suc (suc zero)))))) h = refl
code-digit (suc (suc (suc (suc (suc (suc (suc zero))))))) h = refl
code-digit (suc (suc (suc (suc (suc (suc (suc (suc zero)))))))) h = refl
code-digit (suc (suc (suc (suc (suc (suc (suc (suc (suc zero))))))))) h = refl
code-digit (suc (suc (suc (suc (suc (suc (suc (suc (suc (suc n)))))))))) h = absurd (omega arith)

-- The digits of `n` in front of `tail`; the fuel is spent one a digit.
digits_onto : ℕ → ℕ → String → String
digits_onto zero n tail = tail
digits_onto (suc f) n tail =
    let more = digits_onto f (n / 10) (digit (n % 10) ∷ tail) in
    if ltb n 10 then digit n ∷ tail else more

-- FormatInt of a number that is not negative.
unfoldable pub format_nat : ℕ → String
unfolding digits_onto digit
format_nat n = digits_onto (suc n) n []

parse_from : ℕ → String → Option ℕ
parse_from v [] = some v
parse_from v (c ∷ s) =
    let d = code c in
    let more = parse_from (v * 10 + (d - 48)) s in if leb 48 d && leb d 57 then more else none

parse_from-nil : (v : ℕ) → parse_from v [] ≡ some v
unfolding parse_from
parse_from-nil v = refl

-- The digits alone; no digit at all is an error.
parse_nat : String → Option ℕ
unfolding parse_from
parse_nat [] = none
parse_nat (c ∷ s) = parse_from 0 (c ∷ s)

-- A value out of the range of int64 is an error.
positive : Option ℕ → Option ℤ
positive none = none
positive (some n) = if ltb n (2 ^ 63) then some (pos n) else none

negative : Option ℕ → Option ℤ
negative none = none
negative (some zero) = some (pos 0)
negative (some (suc n)) = if ltb n (2 ^ 63) then some (negsuc n) else none

unfoldable pub parse_int : String → Option ℤ
unfolding parse_nat positive negative
parse_int [] = none
parse_int (c ∷ s) =
    if code c == b'-'
    then negative (parse_nat s)
    else if code c == b'+'
    then positive (parse_nat s)
    else positive (parse_nat (c ∷ s))

parse_from-digit :
    (v d : ℕ) (tail : String)
    → d < 10
    → parse_from v (digit d ∷ tail) ≡ parse_from (v * 10 + d) tail
unfolding parse_from
parse_from-digit v d tail h = ground (arith, code-digit d)

parse_from-digits_onto :
    (f n : ℕ) (tail : String) → n < f → parse_from 0 (digits_onto f n tail) ≡ parse_from n tail
unfolding digits_onto
parse_from-digits_onto zero n tail h = absurd (omega arith)
parse_from-digits_onto (suc f) n tail h = elim (Bool-cases (ltb n 10)) [
  | inl small ↦
      rw small
        (parse_from-digit 0 n tail (ltb→lt n 10 small) ∙ ap (λ m. parse_from m tail) (omega arith))
  | inr big ↦ rw big (
      parse_from-digits_onto f (n / 10) (digit (n % 10) ∷ tail) (ground arith)
      ∙ parse_from-digit (n / 10) (n % 10) tail (omega arith)
      ∙ ap (λ m. parse_from m tail) (omega arith))
]

-- The first character of a printed number is a digit.
digits_onto-head :
    (f n : ℕ) (tail : String)
    → n < f
    → (d : ℕ) × (rest : String) × (d < 10) × (digits_onto f n tail ≡ digit d ∷ rest)
unfolding digits_onto
digits_onto-head zero n tail h = absurd (omega arith)
digits_onto-head (suc f) n tail h = elim (Bool-cases (ltb n 10)) [
  | inl small ↦ (n, tail, ltb→lt n 10 small, rw small)
  | inr big ↦
      let (d, rest, low, e) = digits_onto-head f (n / 10) (digit (n % 10) ∷ tail) (ground arith) in
      (d, rest, low, rw big e)
]

parse_int-digit :
    (d : ℕ) (rest : String) (n : ℕ)
    → d < 10
    → parse_from 0 (digit d ∷ rest) ≡ some n
    → n < 2 ^ 63
    → parse_int (digit d ∷ rest) ≡ some (pos n)
unfolding parse_int
parse_int-digit d rest n low h fits = ground (arith, code-digit d)

-- A number of 63 bits that is printed and parsed comes back.
pub parse_int-format_nat : (n : ℕ) → n < 2 ^ 63 → parse_int (format_nat n) ≡ some (pos n)
unfolding format_nat
parse_int-format_nat n fits =
    let (d, rest, low, e) = digits_onto-head (suc n) n [] (omega arith) in
    rw e (
      parse_int-digit d rest n low
        (rw (← e) (parse_from-digits_onto (suc n) n [] (omega arith) ∙ parse_from-nil n)) fits)
