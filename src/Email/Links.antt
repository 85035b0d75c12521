-- ===== src/Email/Links.antt =====
-- The link that was asked for works (internal/service/email_service.go: RequestPasswordReset,
-- ResetPassword).
use video_streaming_service.Common.{
  ℕ, ◌+◌, ◌<◌, ◌≡◌, refl, inl, inr, true, List, none, some, String, ok, arith, length, Result-cases,
  lt→ltb, ◌==◌, ==_self,
}
use video_streaming_service.Domain.User.{
  User, Uuid, Time, is_password_reset_token_valid, clear_password_reset_token,
}
use video_streaming_service.Email.{
  EmailService, State, bytes_onto, known, lookup_by_token, parse_email_token, digest_matches,
  hash_strong, hash_token_secret, new_email_token, issue_reset, answer_reset, post,
  request_password_reset, set_password, finish_reset, reset_password, store, committed,
}
use video_streaming_service.Email.Digests.{pow_256, parse-encode}
use video_streaming_service.Email.Reset.{ReadsBack, reset_user}

-- The token in the link that is mailed to a user.
abbrev pub mailed_token : {D M S : Type 0} → EmailService D M S → User → List ℕ → String
mailed_token e user secret = e.base64.encode (bytes_onto 16 user.id secret)

-- The user as a request for a reset stores it.
abbrev pub awaiting : {D M S : Type 0} → EmailService D M S → Time → User → List ℕ → User
awaiting e now user secret = record user {
  password_reset_token = some (hash_token_secret e secret);
  password_reset_expiry = some (now + e.reset_ttl);
}

module _ {D M S : Type 0} (e : EmailService D M S) where
  request-ok :
      (now : Time) (email : String) (secret : List ℕ) (user : User) (st : State D M S)
      → e.users.get_by_email email st.db ≡ ok user
      → (request_password_reset e now email (some secret) st).0 ≡ ok tt
      → ((e.users.update (awaiting e now user secret) st.db).0 ≡ ok tt)
        × ((request_password_reset e now email (some secret) st).1.db
            ≡ (e.users.update (awaiting e now user secret) st.db).1)
  unfolding request_password_reset answer_reset issue_reset new_email_token post
  request-ok now email secret user st known h =
      elim (Result-cases (e.users.update (awaiting e now user secret) st.db).0) [
        | inl (_, done) ↦ (done, rw (known, done) refl)
        | inr (x, failed) ↦ absurd (ground (arith, known, failed, h))
      ]

  set_password-answer :
      (t : Time) (v : User) (hash : String) (st : State D M S)
      → (set_password e t v (ok hash) st).0 ≡ (e.users.update (reset_user t hash v) st.db).0
  unfolding set_password committed store
  set_password-answer t v hash st =
      elim (Result-cases (e.users.update (reset_user t hash v) st.db).0) [
        | inl (_, done) ↦ rw done refl
        | inr (x, failed) ↦ rw failed refl
      ]

  -- A token that is expected is accepted while it has not expired.
  accepted :
      (t until : Time) (token password hash : String) (id digest : Uuid) (v : User)
      (st : State D M S)
      → parse_email_token e token ≡ some (id, digest)
      → e.users.get_by_id id st.db ≡ ok v
      → v.password_reset_token ≡ some digest
      → v.password_reset_expiry ≡ some until
      → t < until
      → hash_strong e password ≡ ok hash
      → (reset_password e t token password st).0 ≡ (e.users.update (reset_user t hash v) st.db).0
  unfolding reset_password lookup_by_token known finish_reset is_password_reset_token_valid
      digest_matches clear_password_reset_token
  accepted t until token password hash id digest v st parsed found expected expires early strong =
      let same : (digest == digest) ≡ true = ==_self digest in
      rw (parsed, found, expected, expires, lt→ltb t until early, same, strong)
        (set_password-answer t v hash st)

-- After a RequestPasswordReset for a registered address that succeeds, the link that is mailed is accepted
-- until it expires: ResetPassword with its token and a password that is strong enough writes the new hash
-- without the token, and answers what the write answers. The user store reads back what it wrote.
pub mailed_token-reset_password :
    {D M S : Type 0} (e : EmailService D M S) (laws : ReadsBack e.users) (now t : Time)
    (email password hash : String) (secret : List ℕ) (user : User) (st : State D M S)
    → e.users.get_by_email email st.db ≡ ok user
    → user.id < pow_256 16
    → length secret ≡ 32
    → (request_password_reset e now email (some secret) st).0 ≡ ok tt
    → t < now + e.reset_ttl
    → hash_strong e password ≡ ok hash
    → let st' = (request_password_reset e now email (some secret) st).1 in
      (v : User) × (v.id ≡ user.id)
      × ((reset_password e t (mailed_token e user secret) password st').0
          ≡ (e.users.update (reset_user t hash v) st'.db).0)
      × ((reset_user t hash v).password_hash ≡ hash)
      × ((reset_user t hash v).password_reset_token ≡ none)
unfolding clear_password_reset_token
mailed_token-reset_password e laws now t email password hash secret user st known fits whole asked
      early strong =
    let st' = (request_password_reset e now email (some secret) st).1 in
    let (written, left) = request-ok e now email secret user st known asked in
    let (v, back, _, token, expiry) = laws.stored (awaiting e now user secret) st.db written in
    let found : e.users.get_by_id user.id st'.db ≡ ok v = rw left back in
    (
      v,
      laws.own_id user.id st'.db v found,
      accepted e t (now + e.reset_ttl) (mailed_token e user secret) password hash user.id
          (hash_token_secret e secret) v st' (parse-encode e user.id secret fits whole) found token
          expiry early strong,
      refl,
      refl,
    )
