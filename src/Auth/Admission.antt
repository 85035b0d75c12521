-- ===== src/Auth/Admission.antt =====
-- Who is let in (internal/middleware/auth.go).
use video_streaming_service.Common.{
  ◌≡◌, true, false, Option, some, String, Result, ok, arith, >>=-eq-ok, or_fail-eq-ok,
  invalid_token, or_fail, ◌>>=◌,
}
use video_streaming_service.Domain.Role.{is_valid}
use video_streaming_service.Domain.User.{Uuid, Time}
use video_streaming_service.Token.{JwtLibrary, Claims, issued_at_time, validate_access_token}
use video_streaming_service.Redis.{Redis}
use video_streaming_service.Session.{is_revoked}
use video_streaming_service.Auth.{
  Principal, Authenticator, bearer_token, check_revocation, principal_of_claims,
  principal_from_request,
}

module _ {S : Type 0} (redis : Redis S) (lib : JwtLibrary) (parse_uuid : String → Option Uuid)
    (a : Authenticator) where
  -- What has been established of a request that carries a principal.
  pub record IsAdmitted (header : String) (now : Time) (s : S) (p : Principal) : Type 0 where
    pub token : String
    pub claims : Claims
    pub bearer : bearer_token header ≡ ok token
    pub valid : validate_access_token lib a.tokens now token ≡ ok claims
    pub checked : check_revocation redis lib parse_uuid a claims now s ≡ ok tt
    pub identified : parse_uuid claims.user_id ≡ some p.user_id
    pub named : p.username ≡ claims.username
    pub ranked : p.role ≡ claims.role
    pub known_role : is_valid p.role ≡ true

  principal_of_claims-ok :
      (c : Claims) (now : Time) (s : S) (p : Principal)
      → principal_of_claims redis lib parse_uuid a c now s ≡ ok p
      → (check_revocation redis lib parse_uuid a c now s ≡ ok tt)
        × (parse_uuid c.user_id ≡ some p.user_id)
        × (p.username ≡ c.username)
        × (p.role ≡ c.role)
        × (is_valid p.role ≡ true)
  unfolding principal_of_claims
  principal_of_claims-ok c now s p h = ground arith

  -- What `principalFromRequest` does with the token of the header.
  abbrev after_token : Time → S → String → Result Principal
  after_token now s token = do
    claims ← or_fail (validate_access_token lib a.tokens now token) invalid_token
    principal_of_claims redis lib parse_uuid a claims now s

  -- A request that goes on with a principal carried, behind `Bearer `, a valid access token that
  -- has passed the check of revocation; the principal is the user that it names, and the role that
  -- it states is one of the five.
  pub principal-IsAdmitted :
      (header : String) (now : Time) (s : S) (p : Principal)
      → principal_from_request redis lib parse_uuid a header now s ≡ ok p
      → IsAdmitted header now s p
  unfolding principal_from_request
  principal-IsAdmitted header now s p h =
      let (token, bearer, h1) = >>=-eq-ok (bearer_token header) (after_token now s) h in
      let (claims, e, h2) =
        >>=-eq-ok (or_fail (validate_access_token lib a.tokens now token) invalid_token)
          (λ c. principal_of_claims redis lib parse_uuid a c now s) h1 in
      let (checked, identified, named, ranked, known) = principal_of_claims-ok claims now s p h2 in
      record {
        token = token;
        claims = claims;
        bearer = bearer;
        valid = or_fail-eq-ok (validate_access_token lib a.tokens now token) invalid_token e;
        checked = checked;
        identified = identified;
        named = named;
        ranked = ranked;
        known_role = known;
      }

  -- With a checker that fails closed, the check passes only on an answer that the token is good.
  pub check_revocation-ok :
      (c : Claims) (now : Time) (s : S)
      → a.checks_revocation ≡ true
      → a.revocation_fail_open ≡ false
      → check_revocation redis lib parse_uuid a c now s ≡ ok tt
      → is_revoked redis c.id c.user_id (issued_at_time c) now s ≡ ok false
  unfolding check_revocation
  check_revocation-ok c now s checks closed h = ground arith
