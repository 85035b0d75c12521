-- ===== src/Token.antt =====
-- pkg/jwt/token.go: minting and checking the two kinds of token. github.com/golang-jwt/jwt is the
-- parameter `JwtLibrary`. A time is a number of nanoseconds.
pub mod Kinds
use video_streaming_service.Common.{
  ℕ, ℤ, pos, negsuc, ◌+◌, ◌-◌, ◌*◌, ◌/◌, ◌≤◌, ◌<◌, ◌≡◌, Bool, true, ◌&&◌, Option, none, some,
  String, str_eq, Result, ok, err, other, wrong_token_type, ◌>>=◌, ◌>>◌, fail_if, not, ltb, leb,
  lt_int, if◌then◌else◌,
}
use video_streaming_service.Domain.User.{Time}

-- `type TokenType string`: any string, and two constants.
abbrev pub TokenType : Type 0
TokenType = String

abbrev pub token_type_access : TokenType
token_type_access = "access"

abbrev pub token_type_refresh : TokenType
token_type_refresh = "refresh"

-- `Claims`, the registered ones included; `id` is the jti, "" where the token has none.
pub record Claims : Type 0 where
  pub user_id : String
  pub username : String
  pub role : String
  pub typ : TokenType
  pub issued_at_ms : ℤ
  pub id : String
  pub subject : String
  pub issued_at : Option Time
  pub expires_at : Option Time
  pub not_before : Option Time
  pub issuer : String

-- jwt.NewNumericDate drops what is below a second.
unfoldable pub numeric_date : Time → Time
numeric_date t = t / 1000000000 * 1000000000

-- The time checks that the library makes: before `exp`, and not before `nbf`, where they are present.
abbrev pub in_time : Claims → Time → Bool
in_time c now =
    elim c.expires_at [ none ↦ true | some t ↦ ltb now t ]
    && elim c.not_before [ none ↦ true | some t ↦ leb t now ]

-- The library: HS256 signing under a key, and ParseWithClaims for a key, an issuer and a time; `none`
-- is an error or an invalid token. What the service relies on: a signed token is read back under the
-- same key while its issuer and times fit, and nothing is read outside of them.
pub record JwtLibrary : Type 0 where
  pub signed_string : String → Claims → Option String
  pub parse_with_claims : String → String → Time → String → Option Claims
  pub parse_signed :
      (key issuer token : String) (now : Time) (c : Claims)
      → signed_string key c ≡ some token
      → c.issuer ≡ issuer
      → in_time c now ≡ true
      → parse_with_claims key issuer now token ≡ some c
  pub parsed_in_time :
      (key issuer token : String) (now : Time) (c : Claims)
      → parse_with_claims key issuer now token ≡ some c
      → in_time c now ≡ true

pub record TokenService : Type 0 where
  pub secret_key : String
  pub access_ttl : ℕ
  pub refresh_ttl : ℕ
  pub issuer : String

-- `IssuedAtTime`, as nanoseconds from 1970; time.Time{} is the beginning of the year 1.
unfoldable pub issued_at_time : Claims → ℤ
issued_at_time c =
    if lt_int (pos 0) c.issued_at_ms
    then times c.issued_at_ms
    else elim c.issued_at [ none ↦ negsuc (62135596800 * 1000000000 - 1) | some t ↦ pos t ]
  where
    times : ℤ → ℤ
    times (pos ms) = pos (ms * 1000000)
    times (negsuc ms) = negsuc (ms * 1000000)

-- The claims that `sign` builds; `jti` is uuid.NewString().
unfoldable pub claims_for :
    TokenService → Time → String → String → String → String → TokenType → ℕ → Claims
unfolding numeric_date
claims_for t now jti user_id username role typ ttl = record {
  user_id = user_id;
  username = username;
  role = role;
  typ = typ;
  issued_at_ms = pos (now / 1000000);
  id = jti;
  subject = user_id;
  issued_at = some (numeric_date now);
  expires_at = some (numeric_date (now + ttl));
  not_before = some (numeric_date now);
  issuer = t.issuer;
}

module _ (lib : JwtLibrary) (t : TokenService) where
  unfoldable pub sign : Time → String → String → String → String → TokenType → ℕ → Result String
  sign now jti user_id username role typ ttl =
      elim (lib.signed_string t.secret_key (claims_for t now jti user_id username role typ ttl)) [
        | none ↦ err (other "failed to sign token")
        | some token ↦ ok token
      ]

  unfoldable pub generate_token : Time → String → String → String → String → Result String
  unfolding sign
  generate_token now jti user_id username role =
      sign now jti user_id username role token_type_access t.access_ttl

  unfoldable pub generate_refresh_token : Time → String → String → String → String → Result String
  unfolding sign
  generate_refresh_token now jti user_id username role =
      sign now jti user_id username role token_type_refresh t.refresh_ttl

  unfoldable pub validate_token : Time → String → Result Claims
  validate_token now token = elim (lib.parse_with_claims t.secret_key t.issuer now token) [
    | none ↦ err (other "failed to parse token")
    | some claims ↦ ok claims
  ]

  -- A token minted before the type claim existed is an access token.
  abbrev pub kind_of : Claims → TokenType
  kind_of c = if str_eq c.typ "" then token_type_access else c.typ

  unfoldable pub validate : Time → String → TokenType → Result Claims
  validate now token want = do
    claims ← validate_token now token
    fail_if (not (str_eq (kind_of claims) want)) wrong_token_type
    ok claims

  unfoldable pub validate_access_token : Time → String → Result Claims
  unfolding validate
  validate_access_token now token = validate now token token_type_access

  unfoldable pub validate_refresh_token : Time → String → Result Claims
  unfolding validate
  validate_refresh_token now token = validate now token token_type_refresh
