-- ===== src/Account.antt =====
-- internal/service/auth_service.go: sign-up, sign-in, renewal and sign-out. The user store is the
-- interface of internal/repository/interfaces.go; a time is a number of nanoseconds.
pub mod SignUp
pub mod SignIn
pub mod SignOut
use video_streaming_service.Common.{
  ℕ, ◌/◌, Bool, true, false, not, ◌&&◌, ◌||◌, Option, none, some, String, str_eq, Result, Done, ok,
  err, Error, weak_password, user_not_found, invalid_credentials, user_banned, invalid_token,
  token_revoked, ◌>>=◌, ◌>>◌, fail_if, or_fail, some_or_fail, if◌then◌else◌,
}
use video_streaming_service.Common.Text.{trim_space, contains_code}
use video_streaming_service.Domain.Role.{role_user}
use video_streaming_service.Domain.User.{
  User, Uuid, Time, is_currently_banned, new_user, update_last_login,
}
use video_streaming_service.Password.{
  Classes, Bcrypt, validate_password, hash_password, compare_password,
}
use video_streaming_service.Token.{
  JwtLibrary, TokenService, Claims, issued_at_time, generate_token, generate_refresh_token,
  validate_token, validate_refresh_token,
}
use video_streaming_service.Redis.{Redis}
use video_streaming_service.Session.{revoke_token, revoke_all_user_sessions, is_revoked}

-- `UserRepository`, over what the database holds
pub record UserRepository (D : Type 0) : Type 0 where
  pub create : User → D → Done × D
  pub get_by_id : Uuid → D → Result User
  pub get_by_username : String → D → Result User
  pub get_by_email : String → D → Result User
  pub update : User → D → Done × D

pub record TokenPair : Type 0 where
  pub access_token : String
  pub refresh_token : String
  pub token_type : String
  pub expires_in : ℕ
  pub refresh_expires_in : ℕ
  pub user : User

-- `AuthService` and the libraries below it: the printing and parsing of UUIDs, strings.ToLower, bcrypt.
pub record AuthService (D S : Type 0) : Type 0 where
  pub users : UserRepository D
  pub redis : Redis S
  pub jwt : JwtLibrary
  pub tokens : TokenService
  pub max_token_ttl : ℕ
  pub access_token_ttl : ℕ
  pub refresh_token_ttl : ℕ
  pub classes : Classes
  pub bcrypt : Bcrypt
  pub to_lower : String → String
  pub print_uuid : Uuid → String
  pub parse_uuid : String → Option Uuid

abbrev pub dummy_bcrypt_hash : String
dummy_bcrypt_hash = "$2a$12$C6UzMDM.H6dfI/f/IKcEeO.wLPvfLZBrPWvpBRDDMDDNiIVKWEP.6"

-- errors.Is(err, domain.ErrUserNotFound)
abbrev pub is_user_not_found : Error → Bool
is_user_not_found user_not_found = true
is_user_not_found _ = false

module _ {D S : Type 0} (a : AuthService D S) where
  -- `renewAccess`; `jti` is the fresh id of the token.
  unfoldable pub renew_access : User → String → Time → String → Result TokenPair
  renew_access user refresh_token now jti = do
    access ← generate_token a.jwt a.tokens now jti (a.print_uuid user.id) user.username user.role
    ok (record {
      access_token = access;
      refresh_token = refresh_token;
      token_type = "Bearer";
      expires_in = a.access_token_ttl / 1000000000;
      refresh_expires_in = a.refresh_token_ttl / 1000000000;
      user = record user { password_hash = "" };
    })

  -- `issueTokens`; the refresh token is minted first.
  unfoldable pub issue_tokens : User → Time → String → String → Result TokenPair
  issue_tokens user now refresh_jti access_jti = do
    refresh ←
        generate_refresh_token a.jwt a.tokens now refresh_jti (a.print_uuid user.id) user.username
          user.role
    renew_access user refresh now access_jti

  -- What `Register` does before it writes.
  unfoldable pub prepare : Uuid → Time → String → String → String → Result User
  prepare fresh now username email password = do
    or_fail (validate_password a.classes password) weak_password
    hash ← hash_password a.classes a.bcrypt password
    new_user a.to_lower fresh now username email hash role_user

  unfoldable pub register_user : Result User → Time → String → String → D → Result TokenPair × D
  register_user (err e) now refresh_jti access_jti db = (err e, db)
  register_user (ok user) now refresh_jti access_jti db =
      let (created, db') = a.users.create user db in
      ((do created; issue_tokens user now refresh_jti access_jti), db')

  unfoldable pub register :
      Uuid → Time → String → String → String → String → String → D → Result TokenPair × D
  unfolding register_user
  register fresh now refresh_jti access_jti username email password db =
      register_user (prepare fresh now username email password) now refresh_jti access_jti db

  -- `lookup`
  unfoldable pub lookup : String → D → Result User
  lookup identifier db =
      let name = trim_space identifier in
      if str_eq name ""
      then err user_not_found
      else if contains_code b'@' name
      then a.users.get_by_email name db
      else a.users.get_by_username name db

  -- `Login` from the password comparison on, for a user that was found.
  unfoldable pub login_user : User → String → Time → String → String → D → Result TokenPair × D
  login_user user password now refresh_jti access_jti db =
      if not (compare_password a.bcrypt user.password_hash password)
      then (err invalid_credentials, db)
      else if is_currently_banned now user
      then (err user_banned, db)
      else let user' = update_last_login now user in
        (issue_tokens user' now refresh_jti access_jti, (a.users.update user' db).1)

  -- The same where the lookup failed: the comparison with the dummy hash has no say.
  unfoldable pub login_missing : Error → D → Result TokenPair × D
  login_missing e db = (err (if is_user_not_found e then invalid_credentials else e), db)

  unfoldable pub login : String → String → Time → String → String → D → Result TokenPair × D
  unfolding login_missing
  login identifier password now refresh_jti access_jti db = elim (lookup identifier db) [
    | ok user ↦ login_user user password now refresh_jti access_jti db
    | err e ↦ login_missing e db
  ]

  unfoldable pub lookup_by_id : String → D → Result User
  lookup_by_id raw_id db = do
    id ← some_or_fail (a.parse_uuid raw_id) invalid_token
    a.users.get_by_id id db

  unfoldable pub refresh : String → Time → String → D → S → Result TokenPair
  refresh token now jti db s = do
    claims ← or_fail (validate_refresh_token a.jwt a.tokens now token) invalid_token
    revoked ← is_revoked a.redis claims.id claims.user_id (issued_at_time claims) now s
    fail_if revoked token_revoked
    user ← lookup_by_id claims.user_id db
    fail_if (is_currently_banned now user) user_banned
    renew_access user token now jti

  -- `revokeByClaims`
  unfoldable pub revoke_by_claims : Claims → Time → S → Done × S
  revoke_by_claims c now s =
      if str_eq c.id ""
      then (ok tt, s)
      else revoke_token a.redis a.max_token_ttl c.id c.expires_at now s

  -- The refresh token's part of `Logout`: one that does not validate is passed over.
  unfoldable pub logout_refresh : Result Claims → Time → S → Done × S
  logout_refresh (err _) now s = (ok tt, s)
  logout_refresh (ok c) now s = revoke_by_claims c now s

  unfoldable pub logout_rest : String → String → Time → Done × S → Done × S
  unfolding logout_refresh
  logout_rest access_token refresh_token now (err e, s) = (err e, s)
  logout_rest access_token refresh_token now (ok _, s) =
      if not (str_eq refresh_token "") && not (str_eq refresh_token access_token)
      then logout_refresh (validate_token a.jwt a.tokens now refresh_token) now s
      else (ok tt, s)

  unfoldable pub logout_claims : Result Claims → String → String → Time → S → Done × S
  unfolding logout_rest
  logout_claims (err _) access_token refresh_token now s = (err invalid_token, s)
  logout_claims (ok c) access_token refresh_token now s =
      logout_rest access_token refresh_token now (revoke_by_claims c now s)

  unfoldable pub logout : String → String → Time → S → Done × S
  unfolding logout_claims
  logout access_token refresh_token now s =
      logout_claims (validate_token a.jwt a.tokens now access_token) access_token refresh_token now
        s

  unfoldable pub revoke_all_sessions : Uuid → Time → S → Done × S
  revoke_all_sessions user_id now s =
      revoke_all_user_sessions a.redis a.max_token_ttl (a.print_uuid user_id) now s
