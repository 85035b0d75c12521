-- ===== src/Email/Digests.antt =====
-- A token comes back from its text (internal/service/email_service.go: newEmailToken, parseEmailToken).
use video_streaming_service.Common.{
  ℕ, zero, suc, ◌+◌, ◌*◌, ◌/◌, ◌%◌, ◌<◌, ◌≡◌, ◌∙◌, refl, ap, List, [], ◌∷◌, length, take, drop,
  some, arith, true, ◌==◌,
}
use video_streaming_service.Domain.User.{Uuid}
use video_streaming_service.Email.{
  EmailService, uuid_of, bytes_onto, hash_token_secret, parse_email_token, split_payload,
}

-- 256 ^ n
abbrev pub pow_256 : ℕ → ℕ
pow_256 zero = 1
pow_256 (suc n) = 256 * pow_256 n

uuid_of-bytes_onto :
    (n : ℕ) (id : Uuid) (tail : List ℕ)
    → id < pow_256 n
    → uuid_of 0 (bytes_onto n id tail) ≡ uuid_of id tail
unfolding uuid_of bytes_onto
uuid_of-bytes_onto zero id tail h = ap (λ m. uuid_of m tail) (omega (arith, h))
uuid_of-bytes_onto (suc n) id tail h =
    uuid_of-bytes_onto n (id / 256) (id % 256 ∷ tail) (omega (arith, h))
    ∙ ap (λ m. uuid_of m tail) (omega arith)

length-bytes_onto :
    (n : ℕ) (id : Uuid) (tail : List ℕ) → length (bytes_onto n id tail) ≡ n + length tail
unfolding bytes_onto
length-bytes_onto zero id tail = omega arith
length-bytes_onto (suc n) id tail = length-bytes_onto n (id / 256) (id % 256 ∷ tail) ∙ omega arith

-- The bytes of the number stand in front of the others.
drop-bytes_onto :
    (n k : ℕ) (id : Uuid) (tail : List ℕ) → drop (n + k) (bytes_onto n id tail) ≡ drop k tail
unfolding bytes_onto
drop-bytes_onto zero k id tail = ap (λ m. drop m tail) (omega arith)
drop-bytes_onto (suc n) k id tail =
    ap (λ m. drop m (bytes_onto n (id / 256) (id % 256 ∷ tail))) (omega arith)
    ∙ drop-bytes_onto n (suc k) (id / 256) (id % 256 ∷ tail)

take-bytes_onto :
    (n k : ℕ) (id : Uuid) (tail : List ℕ)
    → take (n + k) (bytes_onto n id tail) ≡ bytes_onto n id (take k tail)
unfolding bytes_onto
take-bytes_onto zero k id tail = ap (λ m. take m tail) (omega arith)
take-bytes_onto (suc n) k id tail =
    ap (λ m. take m (bytes_onto n (id / 256) (id % 256 ∷ tail))) (omega arith)
    ∙ take-bytes_onto n (suc k) (id / 256) (id % 256 ∷ tail)

-- What was mailed is read as the user and the digest that was stored.
pub parse-encode :
    {D M S : Type 0} (e : EmailService D M S) (id : Uuid) (secret : List ℕ)
    → id < pow_256 16
    → length secret ≡ 32
    → parse_email_token e (e.base64.encode (bytes_onto 16 id secret))
      ≡ some (id, hash_token_secret e secret)
unfolding parse_email_token split_payload uuid_of
parse-encode e id secret fits whole =
    let size : (length (bytes_onto 16 id secret) == 48) ≡ true =
      ground (arith, whole, length-bytes_onto 16 id secret) in
    let front : uuid_of 0 (take 16 (bytes_onto 16 id secret)) ≡ id =
      ap (uuid_of 0) (take-bytes_onto 16 0 id secret) ∙ uuid_of-bytes_onto 16 id [] fits in
    let back : drop 16 (bytes_onto 16 id secret) ≡ secret = drop-bytes_onto 16 0 id secret in
    rw (e.base64.decode-encode (bytes_onto 16 id secret), size, front, back) refl
