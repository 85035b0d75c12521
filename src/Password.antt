-- ===== src/Password.antt =====
-- pkg/security/password.go. The classes of package unicode and golang.org/x/crypto/bcrypt are
-- parameters.
pub mod Policy
use Prim.Native.String.{len}
use video_streaming_service.Common.{
  ℕ, suc, ◌+◌, Bool, true, false, not, ◌&&◌, ◌||◌, List, [], ◌∷◌, Option, none, some, String,
  str_eq, any, Result, Done, ok, err, other, ◌>>=◌, ◌>>◌, fail_if, ltb, leb, ◌==◌, if◌then◌else◌,
}
use video_streaming_service.Common.Text.{codes}

-- unicode.IsUpper, unicode.IsLower and unicode.IsNumber of a rune
pub record Classes : Type 0 where
  pub is_upper : ℕ → Bool
  pub is_lower : ℕ → Bool
  pub is_number : ℕ → Bool

-- bcrypt.GenerateFromPassword at the service's cost, `none` on an error, and whether
-- bcrypt.CompareHashAndPassword of a hash and a password returns no error
pub record Bcrypt : Type 0 where
  pub generate : String → Option String
  pub matches : String → String → Bool

abbrev pub common_passwords : List String
common_passwords =
    "password" ∷ "password123" ∷ "123456" ∷ "12345678" ∷ "qwerty" ∷ "abc123" ∷ "monkey" ∷ "1234567"
    ∷ "letmein" ∷ "trustno1" ∷ "dragon" ∷ "baseball" ∷ "iloveyou" ∷ "master" ∷ "sunshine" ∷ "ashley"
    ∷ "bailey" ∷ "shadow" ∷ "superman" ∷ []

unfoldable pub is_common : String → Bool
is_common password = any (λ p. str_eq p password) common_passwords

-- `[!@#$%^&*()_+\-=\[\]{};':"\\|,.<>\/?~]`
unfoldable pub is_special : ℕ → Bool
is_special c = any (λ d. d == c) (codes "!@#$%^&*()_+-=[]{};':\"\\|,.<>/?~")

-- The four flags of the loop.
pub record Seen : Type 0 where
  pub upper : Bool
  pub lower : Bool
  pub number : Bool
  pub special : Bool

module _ (u : Classes) where
  -- One round of the loop: the `switch` takes the first case that fits.
  unfoldable pub see : Seen → ℕ → Seen
  see seen char =
      if u.is_upper char
      then record seen { upper = true }
      else if u.is_lower char
      then record seen { lower = true }
      else if u.is_number char
      then record seen { number = true }
      else if is_special char
      then record seen { special = true }
      else seen

  unfoldable pub see_all : Seen → List ℕ → Seen
  see_all seen [] = seen
  see_all seen (char ∷ chars) = see_all (see seen char) chars

  unfoldable pub validate_password : String → Done
  validate_password password = do
    fail_if (ltb (len password) 8) (other "password must be at least 8 characters long")
    fail_if (ltb 72 (len password)) (other "password must not exceed 72 characters")
    fail_if (is_common password) (other "password is too common")
    let seen =
        see_all (record { upper = false; lower = false; number = false; special = false })
          (codes password)
    fail_if (not seen.upper) (other "password must contain at least one uppercase letter")
    fail_if (not seen.lower) (other "password must contain at least one lowercase letter")
    fail_if (not seen.number) (other "password must contain at least one number")
    fail_if (not seen.special) (other "password must contain at least one special character")
    ok tt

  unfoldable pub hash_password : Bcrypt → String → Result String
  hash_password bcrypt password = do
    validate_password password
    elim (bcrypt.generate password) [
      | none ↦ err (other "failed to hash password")
      | some hashed ↦ ok hashed
    ]

-- `ComparePassword`
unfoldable pub compare_password : Bcrypt → String → String → Bool
compare_password bcrypt hashed plain = bcrypt.matches hashed plain

abbrev point : Bool → ℕ
point b = if b then 1 else 0

-- `ValidatePasswordStrength`: the score, and the word for it
unfoldable pub score_of : String → ℕ
unfolding is_special
score_of password =
    let cs = codes password in
    point (leb 8 (len password))
    + point (leb 12 (len password))
    + point (leb 16 (len password))
    + point (any (λ c. leb b'a' c && leb c b'z') cs)
    + point (any (λ c. leb b'A' c && leb c b'Z') cs)
    + point (any (λ c. leb b'0' c && leb c b'9') cs)
    + point (any is_special cs)

unfoldable pub validate_password_strength : String → String × ℕ
validate_password_strength password =
    let score = score_of password in
    (
      if leb score 2
          then "weak"
          else if leb score 4
          then "fair"
          else if leb score 6
          then "good"
          else "strong",
      score,
    )
