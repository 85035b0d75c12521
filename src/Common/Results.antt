-- ===== src/Common/Results.antt =====
-- Go's pair of a value and an `error` (internal/domain/errors.go names the sentinels).
use mathlib.Core.Path.{◌≡◌, refl}
use mathlib.Core.Logic.{◌⊎◌, inl, inr}
use mathlib.Core.Bool.{Bool}
use video_streaming_service.Common.Tests.{if◌then◌else◌}
use mathlib.Core.Option.{Option, none, some}
use Prim.Native.String.{String}

-- The sentinel errors that callers match with errors.Is. A wrapped sentinel is the sentinel; `other`
-- is any error that wraps none, with the fixed text that it begins with.
pub data Error : Type 0 where
  invalid_input database_error : Error
  video_not_found invalid_title title_too_long invalid_file_size file_size_too_large : Error
  invalid_filename invalid_mime_type invalid_format upload_failed processing_failed : Error
  invalid_progress invalid_status invalid_id : Error
  user_not_found invalid_username invalid_email invalid_password invalid_role : Error
  bio_too_long full_name_too_long user_already_exists invalid_credentials : Error
  email_not_verified invalid_token token_expired weak_password unauthorized forbidden : Error
  user_banned session_not_found session_expired : Error
  invalid_report_type missing_report_target missing_report_reason report_not_found : Error
  like_not_found comment_not_found subscription_not_found self_subscription : Error
  playlist_not_found playlist_video_not_found video_already_in_playlist : Error
  watch_later_not_found notification_not_found : Error
  email_already_verified token_revoked revocation_unavailable watch_history_not_found : Error
  storage_key_invalid storage_object_not_found : Error
  -- ErrWrongTokenType of pkg/jwt, ErrDuplicateReport of the moderation service
  wrong_token_type duplicate_report : Error
  -- the sentinels of pkg/validator
  file_too_large invalid_file_format invalid_file_title invalid_uuid invalid_pagination : Error
  other : String → Error

pub data Result {ℓ} (X : Type ℓ) : Type ℓ where
  err : Error → Result X
  ok : X → Result X

-- Go's bare `error`
abbrev pub Done : Type 0
Done = Result (Unit {0})

-- `if cond { return e }`
abbrev pub fail_if : Bool → Error → Done
fail_if failed e = if failed then err e else ok tt

module _ {ℓ κ} {X : Type ℓ} {Y : Type κ} where
  infixl 5 ◌>>=◌
  -- The early return `if err != nil { return err }` after a call.
  abbrev pub ◌>>=◌ : Result X → (X → Result Y) → Result Y
  err e >>= rest = err e
  ok x >>= rest = rest x

  -- What a whole chain returns, its first call has returned and the rest has made of it.
  pub >>=-eq-ok :
      (first : Result X) (rest : X → Result Y) {y : Y}
      → (first >>= rest) ≡ ok y
      → (x : X) × (first ≡ ok x) × (rest x ≡ ok y)
  >>=-eq-ok (err e) rest done = cc
  >>=-eq-ok (ok x) rest done = (x, refl, done)

infixl 5 ◌>>◌
abbrev pub ◌>>◌ {ℓ} : {Y : Type ℓ} → Done → Result Y → Result Y
first >> rest = first >>= λ done. rest

pub ok-injective {ℓ} : {A : Type ℓ} {a b : A} → ok a ≡ ok b → a ≡ b
ok-injective h = cc

-- `if err != nil { return e }` after a call whose own error is dropped
abbrev pub or_fail {ℓ} : {A : Type ℓ} → Result A → Error → Result A
or_fail (ok a) e = ok a
or_fail (err _) e = err e

abbrev pub some_or_fail {ℓ} : {A : Type ℓ} → Option A → Error → Result A
some_or_fail none e = err e
some_or_fail (some a) e = ok a

pub or_fail-eq-ok {ℓ} :
    {A : Type ℓ} (m : Result A) (e : Error) {a : A} → or_fail m e ≡ ok a → m ≡ ok a
or_fail-eq-ok (ok a) e h = h
or_fail-eq-ok (err x) e h = cc

pub some_or_fail-eq-ok {ℓ} :
    {A : Type ℓ} (o : Option A) (e : Error) {a : A} → some_or_fail o e ≡ ok a → o ≡ some a
some_or_fail-eq-ok none e h = cc
some_or_fail-eq-ok (some a) e h = cc

pub Result-cases {ℓ} :
    {A : Type ℓ} (m : Result A) → ((a : A) × (m ≡ ok a)) ⊎ ((e : Error) × (m ≡ err e))
Result-cases (ok a) = inl (a, refl)
Result-cases (err e) = inr (e, refl)
