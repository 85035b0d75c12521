-- ===== src/Email/Reset.antt =====
-- A reset link works once (internal/service/email_service.go: ResetPassword).
use video_streaming_service.Common.{
  ◌≡◌, ◌∙◌, refl, sym, ap, inl, inr, true, none, some, String, Result, ok, err, invalid_token,
  arith, Option-cases, Result-cases, >>=-eq-ok, some_or_fail, some_or_fail-eq-ok, ok-injective,
}
use video_streaming_service.Domain.User.{
  User, Uuid, Time, clear_password_reset_token, is_password_reset_token_valid,
}
use video_streaming_service.Account.{UserRepository}
use video_streaming_service.Email.{
  EmailService, State, known, lookup_by_token, parse_email_token, digest_matches, hash_strong,
  store, committed, revoke_sessions, set_password, finish_reset, reset_password,
}

-- What the service relies on of the user store: a row is found under its own id, and a write that
-- succeeds is read back, as far as the id, the hash and the reset token go.
pub record ReadsBack {D : Type 0} (users : UserRepository D) : Type 0 where
  pub own_id : (id : Uuid) (db : D) (u : User) → users.get_by_id id db ≡ ok u → u.id ≡ id
  pub stored :
      (u : User) (db : D)
      → (users.update u db).0 ≡ ok tt
      → (v : User) × (users.get_by_id u.id (users.update u db).1 ≡ ok v)
        × (v.password_hash ≡ u.password_hash)
        × (v.password_reset_token ≡ u.password_reset_token)
        × (v.password_reset_expiry ≡ u.password_reset_expiry)

-- The user as a reset stores it.
abbrev pub reset_user : Time → String → User → User
reset_user now hash user = clear_password_reset_token now (record user { password_hash = hash })

-- A reset that was due: the token addresses a user and carries the secret of the user's unexpired reset
-- token, the password is strong enough, and what was stored is its hash, without the token.
pub record IsReset {D M S : Type 0} (e : EmailService D M S) (now : Time) (token password : String)
    (st st' : State D M S) : Type 0 where
  pub id : Uuid
  pub user : User
  pub digest : Uuid
  pub hash : String
  pub parsed : parse_email_token e token ≡ some (id, digest)
  pub found : e.users.get_by_id id st.db ≡ ok user
  pub expected : user.password_reset_token ≡ some digest
  pub in_time : is_password_reset_token_valid now user ≡ true
  pub strong : hash_strong e password ≡ ok hash
  pub written : (e.users.update (reset_user now hash user) st.db).0 ≡ ok tt
  pub left : st'.db ≡ (e.users.update (reset_user now hash user) st.db).1

module _ {D M S : Type 0} (e : EmailService D M S) where
  known-ok : (r : Result User) (u : User) → known e r ≡ ok u → r ≡ ok u
  unfolding known
  known-ok (ok v) u h = h
  known-ok (err x) u h = cc

  -- Whom a token is for, and the digest that it has to match.
  lookup_by_token-ok :
      (token : String) (db : D) (user : User) (digest : Uuid)
      → lookup_by_token e token db ≡ ok (user, digest)
      → (id : Uuid) × (parse_email_token e token ≡ some (id, digest))
        × (e.users.get_by_id id db ≡ ok user)
  unfolding lookup_by_token
  lookup_by_token-ok token db user digest h =
      let ((id, d), parsed, rest) =
        >>=-eq-ok (some_or_fail (parse_email_token e token) invalid_token) _ h in
      let (u, found, pair) = >>=-eq-ok (known e (e.users.get_by_id id db)) _ rest in
      let same : (u, d) ≡ (user, digest) = ok-injective pair in
      (
        id,
        some_or_fail-eq-ok _ _ parsed ∙ ap (λ x. some (id, x)) (ap (λ x. x.1) same),
        known-ok _ u found ∙ ap ok (ap (λ x. x.0) same),
      )

  -- The last part writes the hash, or fails.
  set_password-ok :
      (now : Time) (user : User) (hashed : Result String) (st : State D M S)
      → (set_password e now user hashed st).0 ≡ ok tt
      → (hash : String) × (hashed ≡ ok hash)
        × ((e.users.update (reset_user now hash user) st.db).0 ≡ ok tt)
        × ((set_password e now user hashed st).1.db
            ≡ (e.users.update (reset_user now hash user) st.db).1)
  unfolding set_password committed store revoke_sessions
  set_password-ok now user (err x) st h = cc
  set_password-ok now user (ok hash) st h =
      elim (Result-cases (e.users.update (reset_user now hash user) st.db).0) [
        | inl (_, done) ↦ (hash, refl, done, rw done refl)
        | inr (x, failed) ↦ absurd (ground (arith, failed, h))
      ]

  finish_reset-ok :
      (now : Time) (password : String) (user : User) (digest : Uuid) (st : State D M S)
      → (finish_reset e now password (ok (user, digest)) st).0 ≡ ok tt
      → (user.password_reset_token ≡ some digest)
        × (is_password_reset_token_valid now user ≡ true)
        × (finish_reset e now password (ok (user, digest)) st
            ≡ set_password e now user (hash_strong e password) st)
  unfolding finish_reset digest_matches
  finish_reset-ok now password user digest st h = elim (Option-cases user.password_reset_token) [
    | inl absent ↦ absurd (ground (arith, absent, h))
    | inr (d, present) ↦
        (ground (arith, present, h), ground (arith, present, h), ground (arith, present, h))
  ]

  reset_password-IsReset :
      (now : Time) (token password : String) (st : State D M S)
      → (reset_password e now token password st).0 ≡ ok tt
      → IsReset e now token password st (reset_password e now token password st).1
  unfolding reset_password
  reset_password-IsReset now token password st h = go (lookup_by_token e token st.db) refl h
    where
      go :
          (looked : Result (User × Uuid))
          → lookup_by_token e token st.db ≡ looked
          → (finish_reset e now password looked st).0 ≡ ok tt
          → IsReset e now token password st (finish_reset e now password looked st).1
      go (ok (user, digest)) looked h =
          let (id, parsed, found) = lookup_by_token-ok token st.db user digest looked in
          let (expected, in_time, goes) = finish_reset-ok now password user digest st h in
          let (hash, strong, written, left) =
            set_password-ok now user (hash_strong e password) st (ap (λ o. o.0) (sym goes) ∙ h) in
          record {
            id = id;
            user = user;
            digest = digest;
            hash = hash;
            parsed = parsed;
            found = found;
            expected = expected;
            in_time = in_time;
            strong = strong;
            written = written;
            left = ap (λ o. o.1.db) goes ∙ left;
          }
      go (err x) looked h = cc

  -- A token whose user has none is refused.
  spent-refused :
      (t : Time) (token password : String) (st : State D M S) (id digest : Uuid) (v : User)
      → parse_email_token e token ≡ some (id, digest)
      → e.users.get_by_id id st.db ≡ ok v
      → v.password_reset_token ≡ none
      → (reset_password e t token password st).0 ≡ err invalid_token
  unfolding reset_password lookup_by_token known finish_reset is_password_reset_token_valid
  spent-refused t token password st id digest v parsed found gone =
      rw (parsed, found) (ground (arith, gone))

-- A ResetPassword that succeeds was due: its token addresses a user and carries the secret of the user's
-- unexpired reset token, and the new hash is stored. After it the same token is refused at any time, with
-- any password, where the user store reads back what it wrote.
pub reset_password_once :
    {D M S : Type 0} (e : EmailService D M S) (laws : ReadsBack e.users) (now : Time)
    (token password : String) (st : State D M S)
    → (reset_password e now token password st).0 ≡ ok tt
    → let st' = (reset_password e now token password st).1 in
      IsReset e now token password st st'
      × ((t : Time) (again : String) → (reset_password e t token again st').0 ≡ err invalid_token)
unfolding clear_password_reset_token
reset_password_once e laws now token password st h =
    let reset = reset_password-IsReset e now token password st h in
    let user' = reset_user now reset.hash reset.user in
    let (v, back, _, spent, _) = laws.stored user' st.db reset.written in
    let same_id : reset.user.id ≡ reset.id = laws.own_id reset.id st.db reset.user reset.found in
    let st' = (reset_password e now token password st).1 in
    let found : e.users.get_by_id reset.id st'.db ≡ ok v = rw (reset.left, ← same_id) back in
    (
      reset,
      λ t again. spent-refused e t token again st' reset.id reset.digest v reset.parsed found spent,
    )
