-- ===== src/Email.antt =====
-- internal/service/email_service.go: the verification of addresses, the reset and the change of
-- passwords. The user store is the interface of internal/repository/interfaces.go; base64, SHA-256, the
-- printing of a duration and the delivery of mail are parameters. `secret` stands for what crypto/rand
-- gives, if it gives anything. A byte is a number below 256.
pub mod Digests
pub mod Reset
pub mod Links
use video_streaming_service.Common.{
  ℕ, zero, suc, ◌+◌, ◌*◌, ◌/◌, ◌%◌, ◌≡◌, Bool, true, false, not, ◌&&◌, ◌||◌, List, [], ◌∷◌, ◌++◌,
  str_eq, length, take, drop, Option, none, some, String, Result, Done, ok, err, Error,
  invalid_token, weak_password, invalid_credentials, email_already_verified, other, ◌>>=◌, ◌>>◌,
  fail_if, or_fail, some_or_fail, ◌==◌, if◌then◌else◌,
}
use Prim.Native.Char.{code}
use video_streaming_service.Common.Text.{concat}
use video_streaming_service.Domain.User.{
  User, Uuid, Time, verify_email, clear_password_reset_token, is_password_reset_token_valid,
}
use video_streaming_service.Domain.Video.{is_id}
use video_streaming_service.Password.{
  Classes, Bcrypt, validate_password, hash_password, compare_password,
}
use video_streaming_service.Account.{UserRepository, is_user_not_found}

-- `mailer.Message`
pub record Message : Type 0 where
  pub to : String
  pub subject : String
  pub text_body : String
  pub html_body : String

-- base64.RawURLEncoding, and the documented fact that it reads what it writes.
pub record Base64 : Type 0 where
  pub encode : List ℕ → String
  pub decode : String → Option (List ℕ)
  pub decode-encode : (bytes : List ℕ) → decode (encode bytes) ≡ some bytes

-- `EmailService`; a revoker may be missing.
pub record EmailService (D M S : Type 0) : Type 0 where
  pub users : UserRepository D
  pub send : Message → M → Done × M
  pub base_url : String
  pub reset_ttl : ℕ
  pub revoker : Option (Uuid → S → Done × S)
  pub base64 : Base64
  pub sha256 : List ℕ → List ℕ
  pub print_duration : ℕ → String
  pub classes : Classes
  pub bcrypt : Bcrypt

-- The users, the mail and the sessions.
pub record State (D M S : Type 0) : Type 0 where
  pub db : D
  pub mail : M
  pub sessions : S

abbrev pub token_secret_bytes : ℕ
token_secret_bytes = 32

-- `NewEmailService` takes the slashes off the end of the base URL.
unfoldable pub trim_slashes : String → String
trim_slashes String.[] = String.[]
trim_slashes (String.◌∷◌ c s) =
    let rest = trim_slashes s in
    if code c == b'/' && str_eq rest "" then String.[] else String.◌∷◌ c rest

-- The number that bytes spell, and `n` bytes of a number.
unfoldable pub uuid_of : ℕ → List ℕ → Uuid
uuid_of high [] = high
uuid_of high (b ∷ bs) = uuid_of (high * 256 + b) bs

unfoldable pub bytes_onto : ℕ → Uuid → List ℕ → List ℕ
bytes_onto zero id tail = tail
bytes_onto (suc n) id tail = bytes_onto n (id / 256) (id % 256 ∷ tail)

module _ {D M S : Type 0} (e : EmailService D M S) where
  unfoldable pub hash_token_secret : List ℕ → Uuid
  unfolding uuid_of
  hash_token_secret secret = uuid_of 0 (take 16 (e.sha256 secret))

  -- The token to mail and the digest to store.
  unfoldable pub new_email_token : Uuid → Option (List ℕ) → Result (String × Uuid)
  unfolding bytes_onto hash_token_secret
  new_email_token user none = err (other "generating token")
  new_email_token user (some secret) =
      ok (e.base64.encode (bytes_onto 16 user secret), hash_token_secret secret)

  unfoldable pub split_payload : Option (List ℕ) → Option (Uuid × Uuid)
  unfolding uuid_of hash_token_secret
  split_payload none = none
  split_payload (some payload) =
      if length payload == 16 + token_secret_bytes
      then some (uuid_of 0 (take 16 payload), hash_token_secret (drop 16 payload))
      else none

  unfoldable pub parse_email_token : String → Option (Uuid × Uuid)
  unfolding split_payload
  parse_email_token token = split_payload (e.base64.decode token)

  -- `digestMatches`
  unfoldable pub digest_matches : Option Uuid → Uuid → Bool
  digest_matches stored computed = is_id stored computed

  unfoldable pub known : Result User → Result User
  known (ok user) = ok user
  known (err x) = err (if is_user_not_found x then invalid_token else x)

  -- `lookupByToken`
  unfoldable pub lookup_by_token : String → D → Result (User × Uuid)
  unfolding known
  lookup_by_token token db = do
    (id, digest) ← some_or_fail (parse_email_token token) invalid_token
    user ← known (e.users.get_by_id id db)
    ok (user, digest)

  -- The link of a page, and the two bodies of a message around it.
  abbrev link : String → String → String
  link page token = concat e.base_url (concat page token)

  unfoldable pub verification_message : User → String → Message
  verification_message user plaintext =
      let url = link "/verify-email?token=" plaintext in
      record {
        to = user.email;
        subject = "Verify your email address";
        text_body = concat "Hi " (
            concat user.username (
              concat ",\n\nConfirm your email address by opening this link:\n\n" (
                concat url
                  "\n\nIf you did not create this account, you can ignore this message.\n")));
        html_body = concat "<p>Hi " (
            concat user.username (
              concat ",</p><p>Confirm your email address by opening this link:</p><p><a href=\"" (
                concat url (
                  concat "\">" (
                    concat url
                      "</a></p><p>If you did not create this account, you can ignore this message.</p>")))));
      }

  unfoldable pub reset_message : User → String → Message
  reset_message user plaintext =
      let url = link "/reset-password?token=" plaintext in
      let period = e.print_duration e.reset_ttl in
      record {
        to = user.email;
        subject = "Reset your password";
        text_body = concat "Hi " (
            concat user.username (
              concat
                ",\n\nA password reset was requested for your account. Open this link to choose a new password:\n\n"
                (concat url (
                  concat "\n\nThe link expires in " (
                    concat period
                      ". If you did not request this, you can ignore this message; your password is unchanged.\n")))));
        html_body = concat "<p>Hi " (
            concat user.username (
              concat
                ",</p><p>A password reset was requested for your account. Open this link to choose a new password:</p><p><a href=\""
                (concat url (
                  concat "\">" (
                    concat url (
                      concat "</a></p><p>The link expires in " (
                        concat period
                          ". If you did not request this, you can ignore this message; your password is unchanged.</p>")))))));
      }

  -- Delivery comes after the user is stored.
  unfoldable pub deliver : Done × D → Message → State D M S → Done × State D M S
  deliver (err x, db) m st = (err x, record st { db = db })
  deliver (ok _, db) m st =
      let (sent, mail) = e.send m st.mail in (sent, record st { db = db; mail = mail })

  unfoldable pub issue_verification :
      User → Result (String × Uuid) → State D M S → Done × State D M S
  unfolding deliver verification_message
  issue_verification user (err x) st = (err x, st)
  issue_verification user (ok (plaintext, digest)) st =
      deliver (e.users.update (record user { email_verification_token = some digest }) st.db)
        (verification_message user plaintext) st

  unfoldable pub start_verification :
      Result User → Option (List ℕ) → State D M S → Done × State D M S
  unfolding issue_verification new_email_token
  start_verification (err x) secret st = (err x, st)
  start_verification (ok user) secret st =
      if user.email_verified
      then (err email_already_verified, st)
      else issue_verification user (new_email_token user.id secret) st

  unfoldable pub send_verification_email : Uuid → Option (List ℕ) → State D M S → Done × State D M S
  unfolding start_verification
  send_verification_email id secret st = start_verification (e.users.get_by_id id st.db) secret st

  -- `Update`, and nothing after it.
  unfoldable pub store : User → State D M S → Done × State D M S
  store user st = let (done, db) = e.users.update user st.db in (done, record st { db = db })

  unfoldable pub finish_verification :
      Time → Result (User × Uuid) → State D M S → Done × State D M S
  unfolding store
  finish_verification now (err x) st = (err x, st)
  finish_verification now (ok (user, digest)) st =
      if not (digest_matches user.email_verification_token digest)
      then (err invalid_token, st)
      else store (verify_email now user) st

  -- `VerifyEmail`
  unfoldable pub confirm_email : Time → String → State D M S → Done × State D M S
  unfolding finish_verification
  confirm_email now token st = finish_verification now (lookup_by_token token st.db) st

  -- The message goes out by itself; what becomes of it is only logged.
  unfoldable pub post : Done × D → Message → State D M S → Done × State D M S
  post (err x, db) m st = (err x, record st { db = db })
  post (ok _, db) m st = (ok tt, record st { db = db; mail = (e.send m st.mail).1 })

  unfoldable pub issue_reset :
      Time → User → Result (String × Uuid) → State D M S → Done × State D M S
  unfolding post reset_message
  issue_reset now user (err x) st = (err x, st)
  issue_reset now user (ok (plaintext, digest)) st =
      post
        (e.users.update
          (record user {
            password_reset_token = some digest;
            password_reset_expiry = some (now + e.reset_ttl);
          })
          st.db)
        (reset_message user plaintext) st

  -- An address that nobody has gets a token as well, for the time that takes, and no message.
  unfoldable pub answer_reset :
      Time → Result User → Option (List ℕ) → State D M S → Done × State D M S
  unfolding issue_reset new_email_token
  answer_reset now (ok user) secret st = issue_reset now user (new_email_token user.id secret) st
  answer_reset now (err x) secret st =
      if is_user_not_found x then ((new_email_token 0 secret >>= λ _. ok tt), st) else (err x, st)

  unfoldable pub request_password_reset :
      Time → String → Option (List ℕ) → State D M S → Done × State D M S
  unfolding answer_reset
  request_password_reset now email secret st =
      answer_reset now (e.users.get_by_email email st.db) secret st

  -- A revocation that fails is logged.
  unfoldable pub revoke_by : Option (Uuid → S → Done × S) → Uuid → S → S
  revoke_by none user s = s
  revoke_by (some revoke) user s = (revoke user s).1

  unfoldable pub revoke_sessions : Uuid → State D M S → State D M S
  unfolding revoke_by
  revoke_sessions user st = record st { sessions = revoke_by e.revoker user st.sessions }

  -- The hash of a password that is strong enough.
  unfoldable pub hash_strong : String → Result String
  hash_strong password = do
    or_fail (validate_password e.classes password) weak_password
    hash_password e.classes e.bcrypt password

  unfoldable pub committed : Done × State D M S → Uuid → Done × State D M S
  unfolding revoke_sessions
  committed (err x, st) user = (err x, st)
  committed (ok _, st) user = (ok tt, revoke_sessions user st)

  -- From the hash on, which ResetPassword and ChangePassword share.
  unfoldable pub set_password : Time → User → Result String → State D M S → Done × State D M S
  unfolding committed store
  set_password now user (err x) st = (err x, st)
  set_password now user (ok hash) st =
      committed (store (clear_password_reset_token now (record user { password_hash = hash })) st)
        user.id

  unfoldable pub finish_reset :
      Time → String → Result (User × Uuid) → State D M S → Done × State D M S
  unfolding set_password hash_strong
  finish_reset now password (err x) st = (err x, st)
  finish_reset now password (ok (user, digest)) st =
      if not (is_password_reset_token_valid now user)
        || not (digest_matches user.password_reset_token digest)
      then (err invalid_token, st)
      else set_password now user (hash_strong password) st

  unfoldable pub reset_password : Time → String → String → State D M S → Done × State D M S
  unfolding finish_reset
  reset_password now token password st = finish_reset now password (lookup_by_token token st.db) st

  unfoldable pub finish_change :
      Time → String → String → Result User → State D M S → Done × State D M S
  unfolding set_password hash_strong
  finish_change now current password (err x) st = (err x, st)
  finish_change now current password (ok user) st =
      if not (compare_password e.bcrypt user.password_hash current)
      then (err invalid_credentials, st)
      else set_password now user (hash_strong password) st

  unfoldable pub change_password : Time → Uuid → String → String → State D M S → Done × State D M S
  unfolding finish_change
  change_password now id current password st =
      finish_change now current password (e.users.get_by_id id st.db) st
