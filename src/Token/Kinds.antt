-- ===== src/Token/Kinds.antt =====
-- A token is good for one purpose only (pkg/jwt/token.go).
use video_streaming_service.Common.{
  ℕ, ◌+◌, ◌≤◌, ◌<◌, ◌≡◌, refl, true, some, String, ok, err, wrong_token_type, arith,
}
use video_streaming_service.Domain.User.{Time}
use video_streaming_service.Token.{
  JwtLibrary, TokenService, Claims, TokenType, claims_for, numeric_date, in_time, token_type_access,
  token_type_refresh, sign, generate_token, generate_refresh_token, validate_token,
  validate_access_token, validate_refresh_token,
}

numeric_date-le : (t : Time) → numeric_date t ≤ t
unfolding numeric_date
numeric_date-le t = omega arith

claims_for-in_time :
    (t : TokenService) (minted now : Time) (jti user_id username role : String) (typ : TokenType)
    (ttl : ℕ)
    → minted ≤ now
    → now < numeric_date (minted + ttl)
    → in_time (claims_for t minted jti user_id username role typ ttl) now ≡ true
unfolding claims_for
claims_for-in_time t minted now jti user_id username role typ ttl after early =
    ground (arith, numeric_date-le minted)

module _ (lib : JwtLibrary) (t : TokenService) where
  pub sign-validate_token :
      (minted now : Time) (jti user_id username role : String) (typ : TokenType) (ttl : ℕ)
      (token : String)
      → minted ≤ now
      → now < numeric_date (minted + ttl)
      → sign lib t minted jti user_id username role typ ttl ≡ ok token
      → validate_token lib t now token ≡ ok (claims_for t minted jti user_id username role typ ttl)
  unfolding sign validate_token
  sign-validate_token minted now jti user_id username role typ ttl token after early minted_ok =
      let c = claims_for t minted jti user_id username role typ ttl in
      let same : c.issuer ≡ t.issuer = unfold claims_for in refl in
      let signed : lib.signed_string t.secret_key c ≡ some token = ground arith in
      let parsed =
        lib.parse_signed t.secret_key t.issuer token now c signed same
          (claims_for-in_time t minted now jti user_id username role typ ttl after early) in
      rw (parsed, validate_token)

  -- An access token, between its minting and its expiry, is taken where API credentials are wanted,
  -- with the claims that it was minted for, and is refused where a refresh token is wanted.
  pub generate_token-validate :
      (minted now : Time) (jti user_id username role token : String)
      → minted ≤ now
      → now < numeric_date (minted + t.access_ttl)
      → generate_token lib t minted jti user_id username role ≡ ok token
      → (validate_access_token lib t now token
          ≡ ok (claims_for t minted jti user_id username role token_type_access t.access_ttl))
        × (validate_refresh_token lib t now token ≡ err wrong_token_type)
  unfolding generate_token validate_access_token validate_refresh_token
  generate_token-validate minted now jti user_id username role token after early minted_ok =
      let e =
        sign-validate_token minted now jti user_id username role token_type_access t.access_ttl
          token after early minted_ok in
      (rw e (unfold claims_for in refl), rw e (unfold claims_for in refl))

  -- The same of a refresh token, the other way round.
  pub generate_refresh_token-validate :
      (minted now : Time) (jti user_id username role token : String)
      → minted ≤ now
      → now < numeric_date (minted + t.refresh_ttl)
      → generate_refresh_token lib t minted jti user_id username role ≡ ok token
      → (validate_refresh_token lib t now token
          ≡ ok (claims_for t minted jti user_id username role token_type_refresh t.refresh_ttl))
        × (validate_access_token lib t now token ≡ err wrong_token_type)
  unfolding generate_refresh_token validate_access_token validate_refresh_token
  generate_refresh_token-validate minted now jti user_id username role token after early minted_ok =
      let e =
        sign-validate_token minted now jti user_id username role token_type_refresh t.refresh_ttl
          token after early minted_ok in
      (rw e (unfold claims_for in refl), rw e (unfold claims_for in refl))

  -- No token that the library reads outside of its time is taken.
  validate_token-in_time :
      (now : Time) (token : String) (c : Claims)
      → validate_token lib t now token ≡ ok c
      → in_time c now ≡ true
  unfolding validate_token
  validate_token-in_time now token c h =
      lib.parsed_in_time t.secret_key t.issuer token now c (ground arith)
