-- ===== src/Examples/Tokens.antt =====
-- Tokens, the denylist and the middleware at work (pkg/jwt, internal/service/session_service.go,
-- internal/middleware/auth.go).
use video_streaming_service.Common.{
  pos, ◌≡◌, ◌≢◌, refl, true, some, ok, err, wrong_token_type, arith, String,
}
use video_streaming_service.Common.Text.{trim_space, strip_prefix}
use video_streaming_service.Domain.Role.{is_valid}
use video_streaming_service.Token.{
  numeric_date, claims_for, token_type_access, token_type_refresh, sign, generate_token,
  generate_refresh_token, validate_token, validate, validate_access_token, validate_refresh_token,
}
use video_streaming_service.Token.Kinds.{generate_token-validate, generate_refresh_token-validate}
use video_streaming_service.Session.{
  revoke_token, deny, revoke_all_user_sessions, is_revoked, verdict, marker_denies,
}
use video_streaming_service.Session.Revocation.{revoke_all-is_revoked, revoke_token-is_revoked}
use video_streaming_service.Auth.{
  Principal, bearer_token, judge, check_revocation, principal_of_claims, principal_from_request,
}
use video_streaming_service.Auth.Admission.{IsAdmitted, principal-IsAdmitted}
use video_streaming_service.Auth.Logout.{revoke_all-locks_out}
use video_streaming_service.Examples.Fixtures.{
  tokens, minted, claims_eq, signed, read_claims, jwt, empty, redis, parse_uuid, guard,
}

generate_token-validate_example :
    (validate_access_token jwt tokens 6000000000 "signed-a"
      ≡ ok (claims_for tokens minted "a" "7" "ann" "user" token_type_access tokens.access_ttl))
    × (validate_refresh_token jwt tokens 6000000000 "signed-a" ≡ err wrong_token_type)
unfolding numeric_date generate_token sign claims_for signed claims_eq
generate_token-validate_example =
    generate_token-validate jwt tokens minted 6000000000 "a" "7" "ann" "user" "signed-a"
      (omega arith) (omega arith) refl

generate_refresh_token-validate_example :
    (validate_refresh_token jwt tokens 6000000000 "signed-r"
      ≡ ok (claims_for tokens minted "r" "7" "ann" "user" token_type_refresh tokens.refresh_ttl))
    × (validate_access_token jwt tokens 6000000000 "signed-r" ≡ err wrong_token_type)
unfolding numeric_date generate_refresh_token sign claims_for signed claims_eq
generate_refresh_token-validate_example =
    generate_refresh_token-validate jwt tokens minted 6000000000 "r" "7" "ann" "user" "signed-r"
      (omega arith) (omega arith) refl

revoke_all-is_revoked_example :
    is_revoked redis "a" "7"
      (pos 5250000000)
      7000000000
      (revoke_all_user_sessions redis 3600000000000 "7" 6000000000 empty).1
    ≡ ok true
unfolding revoke_all_user_sessions
revoke_all-is_revoked_example =
    revoke_all-is_revoked redis 3600000000000 "7" "a" 5250000000 6000000000 7000000000 empty refl
      (omega arith) (omega arith) (omega arith) (omega arith) (λ h. cc h)

revoke_token-is_revoked_example :
    is_revoked redis "a" "7"
      (pos 5250000000)
      7000000000
      (revoke_token redis 3600000000000 "a" (some 905000000000) 6000000000 empty).1
    ≡ ok true
unfolding revoke_token deny
revoke_token-is_revoked_example =
    revoke_token-is_revoked redis 3600000000000 "a" "7" (pos 5250000000) 905000000000 6000000000
      7000000000 empty refl (omega arith) (omega arith) (λ h. cc h)

-- What the header of the request holds.
abbrev header : String
header = "Bearer signed-a"

abbrev admitted : Principal
admitted = record { user_id = 7; username = "ann"; role = "user" }

principal-IsAdmitted_example :
    IsAdmitted redis jwt parse_uuid guard header 6000000000 empty admitted
unfolding principal_from_request bearer_token strip_prefix trim_space validate_access_token validate
    validate_token read_claims principal_of_claims check_revocation judge is_revoked verdict
    marker_denies is_valid
principal-IsAdmitted_example =
    principal-IsAdmitted redis jwt parse_uuid guard header 6000000000 empty admitted refl

revoke_all-locks_out_example :
    principal_from_request redis jwt parse_uuid guard header 7000000000
      (revoke_all_user_sessions redis 3600000000000 "7" 6000000000 empty).1
    ≢ ok admitted
unfolding numeric_date generate_token sign claims_for signed claims_eq bearer_token strip_prefix
    trim_space revoke_all_user_sessions
revoke_all-locks_out_example =
    revoke_all-locks_out redis jwt parse_uuid guard 3600000000000 header "7" "ann" "user" "a"
      "signed-a" minted 6000000000 7000000000 empty refl refl (omega arith) (omega arith)
      (omega arith) (omega arith) (omega arith) (omega arith) (omega arith) refl refl refl admitted
