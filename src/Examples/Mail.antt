-- ===== src/Examples/Mail.antt =====
-- A reset of a password from the request to the new hash (internal/service/email_service.go).
use Prim.Native.Char.{code}
use mathlib.Core.Option as Option
use video_streaming_service.Common.{
  ℕ, zero, suc, ◌+◌, ◌≡◌, ◌∙◌, refl, ap, List, [], ◌∷◌, Option, some, none, String, str_eq, ok, err,
  invalid_token, user_not_found, arith, ◌==◌, ==_self, if◌then◌else◌,
}
use video_streaming_service.Domain.User.{User, Time, draft_user, is_password_reset_token_valid}
use video_streaming_service.Common.Text.{trim_space}
use video_streaming_service.Password.{
  validate_password, is_common, see_all, see, is_special, hash_password,
}
use video_streaming_service.Account.{UserRepository}
use video_streaming_service.Email.{
  Base64, EmailService, lookup_by_token, parse_email_token, bytes_onto, digest_matches, State,
  Message, hash_strong, reset_password, request_password_reset,
}
use video_streaming_service.Email.Reset.{ReadsBack, IsReset, reset_user, reset_password_once}
use video_streaming_service.Email.Links.{mailed_token, awaiting, mailed_token-reset_password}
use video_streaming_service.Examples.Fixtures.{classes, bcrypt}

-- A number as that many strokes and a stop.
strokes : ℕ → String → String
strokes zero s = String.◌∷◌ "." s
strokes (suc n) s = String.◌∷◌ "1" (strokes n s)

write_all : List ℕ → String
unfolding strokes
write_all [] = ""
write_all (n ∷ ns) = strokes n (write_all ns)

read_from : ℕ → String → Option (List ℕ)
read_from n String.[] = if n == 0 then some [] else none
read_from n (String.◌∷◌ c s) =
    let rest = read_from 0 s in
    let more = read_from (suc n) s in
    if code c == b'.' then Option.map {A = List ℕ} {B = List ℕ} (λ ns. n ∷ ns) rest else more

read_from-strokes :
    (k n : ℕ) (s : String)
    → read_from k (strokes n s)
      ≡ Option.map {A = List ℕ} {B = List ℕ} (λ ns. (k + n) ∷ ns) (read_from 0 s)
unfolding read_from strokes
read_from-strokes k zero s =
    ap (λ m. Option.map {A = List ℕ} {B = List ℕ} (λ ns. m ∷ ns) (read_from 0 s)) (omega arith)
read_from-strokes k (suc n) s =
    read_from-strokes (suc k) n s
    ∙ ap (λ m. Option.map {A = List ℕ} {B = List ℕ} (λ ns. m ∷ ns) (read_from 0 s)) (omega arith)

read_from-write_all : (ns : List ℕ) → read_from 0 (write_all ns) ≡ some ns
unfolding read_from write_all
read_from-write_all [] = refl
read_from-write_all (n ∷ ns) =
    rw (read_from-strokes 0 n (write_all ns), read_from-write_all ns)
      (ap (λ m. some (m ∷ ns)) (omega arith))

strokes_64 : Base64
strokes_64 = record {
  encode = write_all;
  decode = read_from 0;
  decode-encode = read_from-write_all;
}

-- A store of one user.
abbrev one_user : UserRepository User
one_user = record {
  create = λ user db. (ok tt, user);
  get_by_id = λ id db. if db.id == id then ok db else err user_not_found;
  get_by_username = λ name db. err user_not_found;
  get_by_email = λ email db. if str_eq email db.email then ok db else err user_not_found;
  update = λ user db. (ok tt, user);
}

one_user-ReadsBack : ReadsBack one_user
one_user-ReadsBack = record {
  own_id = λ id db u h. ground (arith, h);
  stored = λ u db h. (u, rw (==_self u.id) refl, refl, refl, refl);
}

-- Messages go nowhere; there are no sessions to revoke.
abbrev mail_service : EmailService User (List Message) (Unit {0})
unfolding strokes_64
mail_service = record {
  users = one_user;
  send = λ m sent. (ok tt, m ∷ sent);
  base_url = "https://example.org";
  reset_ttl = 3600;
  revoker = none;
  base64 = strokes_64;
  sha256 = λ bytes. bytes;
  print_duration = λ d. "1h0m0s";
  classes = classes;
  bcrypt = bcrypt;
}

abbrev zeros : ℕ → List ℕ
zeros zero = []
zeros (suc n) = 0 ∷ zeros n

-- A user of id 7, with and without a reset on the way.
abbrev carol : User
unfolding draft_user
carol = draft_user (λ s. s) 7 5 "carol" "carol@example.org" "hash:Secret-12" "user"

abbrev before_reset : State User (List Message) (Unit {0})
before_reset = record { db = carol; mail = []; sessions = tt }

abbrev asked : State User (List Message) (Unit {0})
asked = record before_reset { db = awaiting mail_service 100 carol (zeros 32) }

reset_password_once_example :
    let token = mailed_token mail_service carol (zeros 32) in
    let st' = (reset_password mail_service 200 token "Secret-34" asked).1 in
    IsReset mail_service 200 token "Secret-34" asked st'
    × ((t : Time) (again : String)
        → (reset_password mail_service t token again st').0 ≡ err invalid_token)
unfolding mail_service reset_password lookup_by_token parse_email_token read_from write_all
    bytes_onto carol is_password_reset_token_valid digest_matches validate_password is_common
    see_all see is_special hash_password
reset_password_once_example =
    reset_password_once mail_service one_user-ReadsBack 200
      (mailed_token mail_service carol (zeros 32)) "Secret-34" asked refl

mailed_token-reset_password_example :
    let st' =
      (request_password_reset mail_service 100 "carol@example.org"
        (some (zeros 32))
        before_reset).1 in
    (v : User) × (v.id ≡ 7)
    × ((reset_password mail_service 200
          (mailed_token mail_service carol (zeros 32))
          "Secret-34"
          st').0
        ≡ (one_user.update (reset_user 200 "hash:Secret-34" v) st'.db).0)
    × ((reset_user 200 "hash:Secret-34" v).password_hash ≡ "hash:Secret-34")
    × ((reset_user 200 "hash:Secret-34" v).password_reset_token ≡ none)
unfolding mail_service carol trim_space request_password_reset hash_strong validate_password
    is_common see_all see is_special hash_password
mailed_token-reset_password_example =
    mailed_token-reset_password mail_service one_user-ReadsBack 100 200 "carol@example.org"
      "Secret-34" "hash:Secret-34" (zeros 32) carol before_reset refl (omega arith) refl refl
      (omega arith) refl
