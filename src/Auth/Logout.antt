-- ===== src/Auth/Logout.antt =====
-- "Log out everywhere", from the denylist to the requests that follow (internal/middleware/auth.go,
-- internal/service/session_service.go, pkg/jwt/token.go).
use video_streaming_service.Common.{
  ℕ, ◌+◌, ◌/◌, ◌^◌, ◌≤◌, ◌<◌, ◌≡◌, ◌≢◌, true, false, none, Option, String, ok, arith, ℤ, pos, Bool,
  ◌*◌, subst,
}
use video_streaming_service.Domain.User.{Uuid, Time}
use video_streaming_service.Token.{
  JwtLibrary, TokenService, numeric_date, claims_for, token_type_access, issued_at_time,
  generate_token,
}
use video_streaming_service.Token.Kinds.{generate_token-validate}
use video_streaming_service.Redis.{Redis}
use video_streaming_service.Session.{
  revoked_token_key, min_issued_at_key, is_revoked, revoke_all_user_sessions,
}
use video_streaming_service.Session.Revocation.{revoke_all-is_revoked}
use video_streaming_service.Auth.{Principal, Authenticator, bearer_token, principal_from_request}
use video_streaming_service.Auth.Admission.{principal-IsAdmitted, check_revocation-ok}

answered :
    {S : Type 0} (redis : Redis S) (jti user_id : String) (issued : ℤ) (now : Time) (s : S)
    {b : Bool}
    → is_revoked redis jti user_id issued now s ≡ ok b
    → redis.mget (revoked_token_key jti) (min_issued_at_key user_id) now s ≢ none
unfolding is_revoked
answered redis jti user_id issued now s h lost = ground (arith, lost)

-- The claims carry the time of minting to the millisecond.
issued_at_time-claims_for :
    (t : TokenService) (minted : Time) (jti user_id username role : String) (ttl : ℕ)
    → 1000000 ≤ minted
    → issued_at_time (claims_for t minted jti user_id username role token_type_access ttl)
      ≡ pos (minted / 1000000 * 1000000)
unfolding issued_at_time claims_for
issued_at_time-claims_for t minted jti user_id username role ttl h = ground arith

module _ {S : Type 0} (redis : Redis S) (lib : JwtLibrary) (parse_uuid : String → Option Uuid)
    (a : Authenticator) (max_token_ttl : ℕ) where
  -- After "log out everywhere", with a revocation checker that fails closed, no request that
  -- carries an access token in force, minted for that user from the first millisecond of 1970 up to
  -- the millisecond of the call, goes on with a principal, until a millisecond before the longest
  -- lifetime of a token has gone by, whether or not the server answers; the clock's milliseconds
  -- fit in 63 bits.
  pub revoke_all-locks_out :
      (header user_id username role jti token : String) (minted now later : Time) (s : S)
      → a.checks_revocation ≡ true
      → a.revocation_fail_open ≡ false
      → 1000000 ≤ minted
      → minted / 1000000 ≤ now / 1000000
      → minted ≤ later
      → now ≤ later
      → later < numeric_date (minted + a.tokens.access_ttl)
      → now / 1000000 + 1 < 2 ^ 63
      → later + 1000000 ≤ now + max_token_ttl
      → generate_token lib a.tokens minted jti user_id username role ≡ ok token
      → bearer_token header ≡ ok token
      → (revoke_all_user_sessions redis max_token_ttl user_id now s).0 ≡ ok tt
      → (p : Principal)
      → principal_from_request redis lib parse_uuid a header later
          (revoke_all_user_sessions redis max_token_ttl user_id now s).1
        ≢ ok p
  revoke_all-locks_out header user_id username role jti token minted now later s checks closed epoch
        early after since live small within minted_ok carried done p h =
      let s' = (revoke_all_user_sessions redis max_token_ttl user_id now s).1 in
      let c =
        claims_for a.tokens minted jti user_id username role token_type_access
          a.tokens.access_ttl in
      let admitted = principal-IsAdmitted redis lib parse_uuid a header later s' p h in
      let same_token : admitted.token ≡ token = cc (admitted.bearer, carried) in
      let same_claims : admitted.claims ≡ c = cc (
        admitted.valid,
        same_token,
        (generate_token-validate lib a.tokens minted later jti user_id username role token after
            live minted_ok).0,
      ) in
      let good : is_revoked redis c.id c.user_id (issued_at_time c) later s' ≡ ok false =
        subst (λ d. is_revoked redis d.id d.user_id (issued_at_time d) later s' ≡ ok false)
          same_claims
          (check_revocation-ok redis lib parse_uuid a admitted.claims later s' checks closed
            admitted.checked) in
      let minted_at =
        issued_at_time-claims_for a.tokens minted jti user_id username role a.tokens.access_ttl
          epoch in
      let good' : is_revoked redis jti user_id (pos (minted / 1000000 * 1000000)) later s'
          ≡ ok false =
        subst (λ i. is_revoked redis jti user_id i later s' ≡ ok false) minted_at
          (unfold claims_for in good) in
      let bad =
        revoke_all-is_revoked redis max_token_ttl user_id jti (minted / 1000000 * 1000000) now later
          s done (omega arith) small since within
          (answered redis jti user_id (pos (minted / 1000000 * 1000000)) later s' good') in
      cc (good', bad)
