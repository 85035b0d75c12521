-- ===== src/Session.antt =====
-- internal/service/session_service.go: the denylist of tokens. A time is a number of nanoseconds.
pub mod Revocation
use video_streaming_service.Common.{
  ℕ, ℤ, pos, negsuc, lt_int, ◌+◌, ◌-◌, ◌/◌, Bool, true, false, Option, none, some, String, str_eq,
  Result, Done, ok, err, other, invalid_token, ltb, leb, if◌then◌else◌,
}
use video_streaming_service.Common.Text.{concat}
use video_streaming_service.Common.Decimal.{format_nat, parse_int}
use video_streaming_service.Domain.User.{Time}
use video_streaming_service.Redis.{Redis}

abbrev pub revoked_token_key : String → String
revoked_token_key jti = concat "auth:revoked:jti:" jti

abbrev pub min_issued_at_key : String → String
min_issued_at_key user_id = concat "auth:revoked:user:ms:" user_id

-- Time.UnixMilli of nanoseconds from 1970, rounded down
abbrev pub unix_milli : ℤ → ℤ
unix_milli (pos n) = pos (n / 1000000)
unix_milli (negsuc n) = negsuc (n / 1000000)

-- The test of the marker that `MGet` brought.
unfoldable pub marker_denies : Option String → ℤ → Result Bool
marker_denies none issued_at = ok false
marker_denies (some raw) issued_at = elim (parse_int raw) [
  | none ↦ err (other "parsing min issued-at")
  | some min_issued_at ↦ ok (if lt_int (unix_milli issued_at) min_issued_at then true else false)
]

-- What `IsRevoked` makes of the reply; `none` is an error of the call.
unfoldable pub verdict : Option (Option String × Option String) → ℤ → Result Bool
verdict none issued_at = err (other "checking token revocation")
verdict (some (some _, marker)) issued_at = ok true
verdict (some (none, marker)) issued_at = marker_denies marker issued_at

module _ {S : Type 0} (redis : Redis S) where
  unfoldable pub is_revoked : String → String → ℤ → Time → S → Result Bool
  unfolding verdict
  is_revoked jti user_id issued_at now s =
      verdict (redis.mget (revoked_token_key jti) (min_issued_at_key user_id) now s) issued_at

module _ {S : Type 0} (redis : Redis S) (max_token_ttl : ℕ) where
  -- The part of `RevokeToken` that writes, for the lifetime that is left.
  unfoldable pub deny : String → ℕ → Time → S → Done × S
  deny jti ttl now s =
      let (answered, s') = redis.set (revoked_token_key jti) "1" ttl now s in
      (if answered then ok tt else err (other "denylisting token"), s')

  -- `RevokeToken`; `none` is the zero time, a token without an exp claim.
  unfoldable pub revoke_token : String → Option Time → Time → S → Done × S
  unfolding deny
  revoke_token jti none now s =
      if str_eq jti ""
      then (err invalid_token, s)
      else if leb max_token_ttl 0
      then (ok tt, s)
      else deny jti max_token_ttl now s
  revoke_token jti (some expires_at) now s =
      if str_eq jti ""
      then (err invalid_token, s)
      else if leb expires_at now
      then (ok tt, s)
      else deny jti (expires_at - now) now s

  -- `RevokeAllUserSessions`, for the text of a user's id
  unfoldable pub revoke_all_user_sessions : String → Time → S → Done × S
  revoke_all_user_sessions user_id now s =
      let cutoff = now / 1000000 + 1 in
      let (answered, s') =
        redis.set (min_issued_at_key user_id) (format_nat cutoff) max_token_ttl now s in
      (if answered then ok tt else err (other "revoking all sessions"), s')
