-- ===== src/Auth.antt =====
-- internal/middleware/auth.go and the principal of pkg/appctx/appctx.go.
pub mod Admission
pub mod Logout
use video_streaming_service.Common.{
  ℕ, Bool, true, false, not, Option, none, some, String, str_eq, Result, Done, ok, err, Error,
  unauthorized, invalid_token, revocation_unavailable, token_revoked, ◌>>=◌, ◌>>◌, fail_if, or_fail,
  some_or_fail, if◌then◌else◌,
}
use video_streaming_service.Common.Text.{trim_space, strip_prefix}
use video_streaming_service.Domain.Role.{Role, Permission, has_permission, is_valid}
use video_streaming_service.Domain.User.{Uuid, Time}
use video_streaming_service.Token.{
  JwtLibrary, TokenService, Claims, issued_at_time, validate_access_token,
}
use video_streaming_service.Redis.{Redis}
use video_streaming_service.Session.{is_revoked}

pub record Principal : Type 0 where
  pub user_id : Uuid
  pub username : String
  pub role : Role

-- The parts of `Authenticator` that decide: whether it has a revocation checker, and what an
-- unreachable store means.
pub record Authenticator : Type 0 where
  pub tokens : TokenService
  pub checks_revocation : Bool
  pub revocation_fail_open : Bool

abbrev pub bearer_prefix : String
bearer_prefix = "Bearer "

-- The head of `principalFromRequest`: the token that the Authorization header carries
unfoldable pub bearer_token : String → Result String
bearer_token header = do
  rest ← some_or_fail (strip_prefix bearer_prefix header) unauthorized
  fail_if (str_eq (trim_space rest) "") unauthorized
  ok (trim_space rest)

-- What `checkRevocation` makes of the answer of `IsRevoked`.
unfoldable pub judge : Bool → Result Bool → Done
judge fail_open (err _) = if fail_open then ok tt else err revocation_unavailable
judge fail_open (ok revoked) = if revoked then err token_revoked else ok tt

-- What a request meets: it goes on with a principal or without one, or is answered by a status.
pub data Outcome : Type 0 where
  next : Option Principal → Outcome
  abort : ℕ → Outcome

abbrev refusal : Error → ℕ
refusal revocation_unavailable = 503
refusal _ = 401

-- `RequirePermission`, over the principal that the context carries
unfoldable pub require_permission : Permission → Option Principal → Outcome
require_permission permission none = abort 401
require_permission permission (some p) =
    if not (has_permission p.role permission) then abort 403 else next (some p)

-- The library's uuid.Parse is a parameter, like the JWT library and the Redis server.
module _ {S : Type 0} (redis : Redis S) (lib : JwtLibrary) (parse_uuid : String → Option Uuid)
    (a : Authenticator) where
  unfoldable pub check_revocation : Claims → Time → S → Done
  unfolding judge
  check_revocation c now s =
      if not a.checks_revocation
      then ok tt
      else judge a.revocation_fail_open (is_revoked redis c.id c.user_id (issued_at_time c) now s)

  -- From the claims on.
  unfoldable pub principal_of_claims : Claims → Time → S → Result Principal
  principal_of_claims c now s = do
    check_revocation c now s
    user_id ← some_or_fail (parse_uuid c.user_id) invalid_token
    fail_if (not (is_valid c.role)) invalid_token
    ok (record { user_id = user_id; username = c.username; role = c.role })

  -- `principalFromRequest`
  unfoldable pub principal_from_request : String → Time → S → Result Principal
  unfolding principal_of_claims
  principal_from_request header now s = do
    token ← bearer_token header
    claims ← or_fail (validate_access_token lib a.tokens now token) invalid_token
    principal_of_claims claims now s

  unfoldable pub require_auth : String → Time → S → Outcome
  require_auth header now s = elim (principal_from_request header now s) [
    | ok p ↦ next (some p)
    | err e ↦ abort (refusal e)
  ]

  unfoldable pub optional_auth : String → Time → S → Outcome
  optional_auth header now s = elim (principal_from_request header now s) [
    | ok p ↦ next (some p)
    | err e ↦ next none
  ]
