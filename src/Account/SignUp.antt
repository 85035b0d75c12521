-- ===== src/Account/SignUp.antt =====
-- Who gets an account (internal/service/auth_service.go).
use video_streaming_service.Common.{
  ◌≡◌, ap, sym, subst, some, String, ok, weak_password, arith, >>=-eq-ok, or_fail, or_fail-eq-ok,
  ◌>>=◌, Result-cases, inl, inr,
}
use video_streaming_service.Domain.Role.{role_user}
use video_streaming_service.Domain.User.{User, Uuid, Time, new_user}
use video_streaming_service.Domain.User.Profile.{IsFresh, new_user-IsFresh}
use video_streaming_service.Password.{validate_password, hash_password}
use video_streaming_service.Password.Policy.{IsStrong, validate_password_iff}
use video_streaming_service.Account.{
  AuthService, TokenPair, prepare, issue_tokens, register_user, register,
}
use video_streaming_service.Account.SignIn.{IsIssuedTo, issue_tokens-ok}

module _ {D S : Type 0} (a : AuthService D S) where
  -- What a successful `Register` has established.
  pub record SignedUp (now : Time) (password : String) (db after : D) (pair : TokenPair)
      : Type 0 where
    pub user : User
    pub strong : IsStrong a.classes password
    pub hashed : a.bcrypt.generate password ≡ some user.password_hash
    pub fresh : IsFresh now user.password_hash role_user user
    pub accepted : (a.users.create user db).0 ≡ ok tt
    pub stored : after ≡ (a.users.create user db).1
    pub issued : IsIssuedTo a user pair

  hash_password-ok :
      (password hash : String)
      → hash_password a.classes a.bcrypt password ≡ ok hash
      → a.bcrypt.generate password ≡ some hash
  unfolding hash_password
  hash_password-ok password hash h = ground arith

  prepare-ok :
      (fresh : Uuid) (now : Time) (username email password : String) (user : User)
      → prepare a fresh now username email password ≡ ok user
      → IsStrong a.classes password
        × (a.bcrypt.generate password ≡ some user.password_hash)
        × IsFresh now user.password_hash role_user user
  unfolding prepare
  prepare-ok fresh now username email password user h =
      let (_, strong, h1) =
        >>=-eq-ok (or_fail (validate_password a.classes password) weak_password)
          (λ _. hash_password a.classes a.bcrypt password >>= λ hash.
            new_user a.to_lower fresh now username email hash role_user)
          h in
      let (hash, hashed, h2) =
        >>=-eq-ok (hash_password a.classes a.bcrypt password)
          (λ hash. new_user a.to_lower fresh now username email hash role_user) h1 in
      let made = new_user-IsFresh a.to_lower fresh now username email hash role_user user h2 in
      (
        (validate_password_iff a.classes password).0
            (or_fail-eq-ok (validate_password a.classes password) weak_password strong),
        cc (hash_password-ok password hash hashed, made.hash_kept),
        subst (λ x. IsFresh now x role_user user) (sym made.hash_kept) made,
      )

  -- A registration succeeds only with a password that the policy accepts and leaves the user store as the
  -- insertion of one account, which the store accepts, leaves it: a fresh one with the ordinary role and
  -- bcrypt's hash of that password. The tokens come with that account, its hash removed.
  pub register-SignedUp :
      (fresh : Uuid) (now : Time) (refresh_jti access_jti username email password : String) (db : D)
      (pair : TokenPair)
      → (register a fresh now refresh_jti access_jti username email password db).0 ≡ ok pair
      → SignedUp now password db
          (register a fresh now refresh_jti access_jti username email password db).1
          pair
  unfolding register register_user
  register-SignedUp fresh now refresh_jti access_jti username email password db pair h =
      elim (Result-cases (prepare a fresh now username email password)) [
        | inr (e, refused) ↦ absurd (ground (arith, refused))
        | inl (user, prepared) ↦
            let (strong, hashed, made) =
              prepare-ok fresh now username email password user prepared in
            let (_, accepted, h1) =
              >>=-eq-ok (a.users.create user db).0
                (λ _. issue_tokens a user now refresh_jti access_jti) (ground (arith, prepared)) in
            record {
              user = user;
              strong = strong;
              hashed = hashed;
              fresh = made;
              accepted = accepted;
              stored = ap (λ r. (register_user a r now refresh_jti access_jti db).1) prepared;
              issued = issue_tokens-ok a user now refresh_jti access_jti pair h1;
            }
      ]
