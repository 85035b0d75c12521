-- ===== src/Account/SignIn.antt =====
-- Who gets tokens (internal/service/auth_service.go).
use video_streaming_service.Common.{
  ◌≡◌, ◌⊎◌, true, false, String, ok, err, user_not_found, invalid_credentials, arith, >>=-eq-ok,
  Result-cases, inl, inr,
}
use video_streaming_service.Domain.User.{User, Time, is_currently_banned, update_last_login}
use video_streaming_service.Password.{compare_password}
use video_streaming_service.Token.{
  Claims, issued_at_time, generate_token, generate_refresh_token, validate_refresh_token,
}
use video_streaming_service.Session.{is_revoked}
use video_streaming_service.Account.{
  AuthService, TokenPair, renew_access, issue_tokens, lookup, login_user, login, lookup_by_id,
  refresh,
}

module _ {D S : Type 0} (a : AuthService D S) where
  -- A pair that was issued to a user: it carries the user without the hash.
  pub record IsIssuedTo (user : User) (pair : TokenPair) : Type 0 where
    pub id : pair.user.id ≡ user.id
    pub role : pair.user.role ≡ user.role
    pub no_hash : pair.user.password_hash ≡ ""

  renew_access-ok :
      (user : User) (token jti : String) (now : Time) (pair : TokenPair)
      → renew_access a user token now jti ≡ ok pair
      → IsIssuedTo user pair
        × (pair.refresh_token ≡ token)
        × (generate_token a.jwt a.tokens now jti (a.print_uuid user.id) user.username user.role
            ≡ ok pair.access_token)
  unfolding renew_access
  renew_access-ok user token jti now pair h = ground arith

  -- What a successful `Login` has established.
  pub record SignedIn (identifier password : String) (now : Time) (db : D) (pair : TokenPair)
      : Type 0 where
    pub user : User
    pub found : lookup a identifier db ≡ ok user
    pub matches : compare_password a.bcrypt user.password_hash password ≡ true
    pub not_banned : is_currently_banned now user ≡ false
    pub issued : IsIssuedTo user pair

  pub issue_tokens-ok :
      (user : User) (now : Time) (j k : String) (pair : TokenPair)
      → issue_tokens a user now j k ≡ ok pair
      → IsIssuedTo user pair
  unfolding issue_tokens
  issue_tokens-ok user now j k pair h =
      let (token, _, h1) =
        >>=-eq-ok
          (generate_refresh_token a.jwt a.tokens now j (a.print_uuid user.id) user.username
            user.role)
          (λ token. renew_access a user token now k) h in
      (renew_access-ok user token k now pair h1).0

  login_user-ok :
      (user : User) (identifier password j k : String) (now : Time) (db : D) (pair : TokenPair)
      → lookup a identifier db ≡ ok user
      → (login_user a user password now j k db).0 ≡ ok pair
      → SignedIn identifier password now db pair
  unfolding login_user update_last_login
  login_user-ok user identifier password j k now db pair found h = record {
    user = user;
    found = found;
    matches = ground arith;
    not_banned = ground arith;
    issued = ground (arith, issue_tokens-ok (update_last_login now user) now j k pair);
  }

  -- A login succeeds only for a user that the identifier finds, with the password of that user, who
  -- is not banned at the time; the tokens come with that user, its hash removed.
  pub login-SignedIn :
      (identifier password j k : String) (now : Time) (db : D) (pair : TokenPair)
      → (login a identifier password now j k db).0 ≡ ok pair
      → SignedIn identifier password now db pair
  unfolding login
  login-SignedIn identifier password j k now db pair h =
      elim (Result-cases (lookup a identifier db)) [
        | inl (user, found) ↦
            login_user-ok user identifier password j k now db pair found (rw (found, login) at h)
        | inr (e, missed) ↦ absurd (ground (arith, missed))
      ]

  -- An identifier that finds nobody and a password that is wrong have one and the same outcome, and
  -- nothing is written.
  pub login-invalid_credentials :
      (identifier password j k : String) (now : Time) (db : D)
      → (lookup a identifier db ≡ err user_not_found)
        ⊎ ((user : User) × (lookup a identifier db ≡ ok user)
            × (compare_password a.bcrypt user.password_hash password ≡ false))
      → login a identifier password now j k db ≡ (err invalid_credentials, db)
  unfolding login login_user
  login-invalid_credentials identifier password j k now db h = ground arith

  -- What a successful `Refresh` has established.
  pub record Renewed (token jti : String) (now : Time) (db : D) (s : S) (pair : TokenPair)
      : Type 0 where
    pub claims : Claims
    pub user : User
    pub valid : validate_refresh_token a.jwt a.tokens now token ≡ ok claims
    pub not_revoked :
        is_revoked a.redis claims.id claims.user_id (issued_at_time claims) now s ≡ ok false
    pub found : lookup_by_id a claims.user_id db ≡ ok user
    pub not_banned : is_currently_banned now user ≡ false
    pub issued : IsIssuedTo user pair
    pub kept : pair.refresh_token ≡ token
    pub minted :
        generate_token a.jwt a.tokens now jti (a.print_uuid user.id) user.username user.role
        ≡ ok pair.access_token

  -- A renewal succeeds only for a valid refresh token that the denylist, which must answer, does not
  -- hold, and whose user is found and not banned. The new access token is minted for that user as
  -- stored now, the role included, and the refresh token stays the one presented.
  pub refresh-Renewed :
      (token jti : String) (now : Time) (db : D) (s : S) (pair : TokenPair)
      → refresh a token now jti db s ≡ ok pair
      → Renewed token jti now db s pair
  unfolding refresh
  refresh-Renewed token jti now db s pair h =
      elim (Result-cases (validate_refresh_token a.jwt a.tokens now token)) [
        | inr (e, bad) ↦ absurd (ground (arith, bad))
        | inl (c, valid) ↦
            elim (Result-cases (is_revoked a.redis c.id c.user_id (issued_at_time c) now s)) [
              | inr (e, lost) ↦ absurd (ground (arith, valid, lost))
              | inl (true, denied) ↦ absurd (ground (arith, valid, denied))
              | inl (false, good) ↦ elim (Result-cases (lookup_by_id a c.user_id db)) [
                | inr (e, missed) ↦ absurd (ground (arith, valid, good, missed))
                | inl (user, found) ↦
                    let free : is_currently_banned now user ≡ false =
                      ground (arith, valid, good, found) in
                    let renewed : renew_access a user token now jti ≡ ok pair =
                      ground (arith, valid, good, found) in
                    let (issued, kept, minted) = renew_access-ok user token jti now pair renewed in
                    record {
                      claims = c;
                      user = user;
                      valid = valid;
                      not_revoked = good;
                      found = found;
                      not_banned = free;
                      issued = issued;
                      kept = kept;
                      minted = minted;
                    }
              ]
            ]
      ]
