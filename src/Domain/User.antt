-- ===== src/Domain/User.antt =====
-- internal/domain/user.go. A time is a number of nanoseconds; `now` is the reading of time.Now().
pub mod Profile
use Prim.Native.String.{len}
use video_streaming_service.Common.{
  ℕ, ◌<◌, ◌≡◌, refl, Bool, true, false, not, ◌&&◌, ◌||◌, List, [], ◌∷◌, Option, none, some, String,
  str_eq, length, all, Result, Done, ok, err, Error, invalid_username, invalid_email,
  invalid_password, invalid_role, bio_too_long, full_name_too_long, ◌>>=◌, ◌>>◌, fail_if, ltb, leb,
  ◌==◌, if◌then◌else◌,
}
use video_streaming_service.Common.Text.{codes, concat, trim_space}
use video_streaming_service.Domain.Role.{Role, Permission, upload_video, has_permission, is_valid}

-- A uuid.UUID by the number that its 16 bytes spell; uuid.Nil is 0.
abbrev pub Uuid : Type 0
Uuid = ℕ

abbrev pub Time : Type 0
Time = ℕ

pub record User : Type 0 where
  pub id : Uuid
  pub username : String
  pub email : String
  pub password_hash : String
  pub full_name : Option String
  pub bio : Option String
  pub avatar_url : Option String
  pub role : Role
  pub email_verified : Bool
  pub email_verification_token : Option Uuid
  pub password_reset_token : Option Uuid
  pub password_reset_expiry : Option Time
  pub last_login_at : Option Time
  pub oauth_provider : Option String
  pub oauth_provider_id : Option String
  pub oauth_avatar_url : Option String
  pub is_banned : Bool
  pub ban_reason : Option String
  pub ban_expiry : Option Time
  pub banned_at : Option Time
  pub banned_by : Option Uuid
  pub created_at : Time
  pub updated_at : Time
  pub deleted_at : Option Time

-- `time.Now().Before(*expiry)`
abbrev pub before : Time → Option Time → Bool → Bool
before now none absent = absent
before now (some expiry) absent = ltb now expiry

unfoldable pub is_currently_banned : Time → User → Bool
is_currently_banned now u = if not u.is_banned then false else before now u.ban_expiry true

-- `[a-zA-Z]`, `[a-zA-Z0-9]`
is_letter : ℕ → Bool
is_letter c = (leb b'a' c && leb c b'z') || (leb b'A' c && leb c b'Z')

is_alnum : ℕ → Bool
unfolding is_letter
is_alnum c = is_letter c || (leb b'0' c && leb c b'9')

-- `^[a-zA-Z0-9_]{3,30}$`
unfoldable pub username_matches : String → Bool
unfolding is_alnum
username_matches s =
    let cs = codes s in
    all (λ c. is_alnum c || c == b'_') cs && leb 3 (length cs) && leb (length cs) 30

-- `[a-zA-Z0-9.-]+\.[a-zA-Z]{2,}` over the rest of a text; `begun` says that the class before the dot
-- has matched a character.
domain_matches : Bool → List ℕ → Bool
unfolding is_alnum
domain_matches begun [] = false
domain_matches begun (c ∷ cs) =
    (begun && c == b'.' && all is_letter cs && leb 2 (length cs))
    || ((is_alnum c || c == b'.' || c == b'-') && domain_matches true cs)

-- `[a-zA-Z0-9._%+-]+@` and the domain; no character of the local part is an `@`.
local_matches : Bool → List ℕ → Bool
unfolding is_alnum domain_matches
local_matches begun [] = false
local_matches begun (c ∷ cs) =
    (begun && c == b'@' && domain_matches false cs)
    || ((is_alnum c || c == b'.' || c == b'_' || c == b'%' || c == b'+' || c == b'-')
        && local_matches true cs)

-- `^[a-zA-Z0-9._%+-]+@[a-zA-Z0-9.-]+\.[a-zA-Z]{2,}$`
unfoldable pub email_matches : String → Bool
unfolding local_matches
email_matches s = local_matches false (codes s)

abbrev pub longer_than : ℕ → Option String → Bool
longer_than n none = false
longer_than n (some s) = ltb n (len s)

unfoldable pub validate : User → Done
validate u = do
  fail_if (not (username_matches u.username)) invalid_username
  fail_if (not (email_matches u.email)) invalid_email
  fail_if (str_eq u.password_hash "") invalid_password
  fail_if (not (is_valid u.role)) invalid_role
  fail_if (longer_than 500 u.bio) bio_too_long
  fail_if (longer_than 100 u.full_name) full_name_too_long
  ok tt

-- The user that `NewUser` builds before it validates it; `fresh` is uuid.New() and `to_lower` is
-- strings.ToLower, which rests on the Unicode tables.
unfoldable pub draft_user : (String → String) → Uuid → Time → String → String → String → Role → User
draft_user to_lower fresh now username email password_hash role = record {
  id = fresh;
  username = trim_space username;
  email = trim_space (to_lower email);
  password_hash = password_hash;
  full_name = none;
  bio = none;
  avatar_url = none;
  role = role;
  email_verified = false;
  email_verification_token = none;
  password_reset_token = none;
  password_reset_expiry = none;
  last_login_at = none;
  oauth_provider = none;
  oauth_provider_id = none;
  oauth_avatar_url = none;
  is_banned = false;
  ban_reason = none;
  ban_expiry = none;
  banned_at = none;
  banned_by = none;
  created_at = now;
  updated_at = now;
  deleted_at = none;
}

unfoldable pub new_user :
    (String → String) → Uuid → Time → String → String → String → Role → Result User
new_user to_lower fresh now username email password_hash role =
    let user = draft_user to_lower fresh now username email password_hash role in
    do validate user; ok user

unfoldable pub can_upload_videos : User → Bool
can_upload_videos u = u.email_verified && has_permission u.role upload_video

unfoldable pub verify_email : Time → User → User
verify_email now u = record u {
  email_verified = true;
  email_verification_token = none;
  updated_at = now;
}

unfoldable pub clear_password_reset_token : Time → User → User
clear_password_reset_token now u = record u {
  password_reset_token = none;
  password_reset_expiry = none;
  updated_at = now;
}

abbrev pub is_some {ℓ} : {A : Type ℓ} → Option A → Bool
is_some none = false
is_some (some _) = true

unfoldable pub is_password_reset_token_valid : Time → User → Bool
is_password_reset_token_valid now u =
    if not (is_some u.password_reset_token) || not (is_some u.password_reset_expiry)
    then false
    else before now u.password_reset_expiry false

unfoldable pub update_last_login : Time → User → User
update_last_login now u = record u { last_login_at = some now; updated_at = now }

-- The second half of `UpdateProfile`, once the name is set.
update_bio : Time → Option String → User → Done × User
update_bio now none u = (ok tt, record u { updated_at = now })
update_bio now (some bio) u =
    if ltb 500 (len bio)
    then (err bio_too_long, u)
    else (ok tt, record u { bio = some bio; updated_at = now })

-- `UpdateProfile` writes to the user as it goes, so the user comes back beside an error too.
unfoldable pub update_profile : Time → Option String → Option String → User → Done × User
unfolding update_bio
update_profile now none bio u = update_bio now bio u
update_profile now (some name) bio u =
    if ltb 100 (len name)
    then (err full_name_too_long, u)
    else update_bio now bio (record u { full_name = some name })

unfoldable pub set_avatar_url : Time → String → User → User
set_avatar_url now url u = record u { avatar_url = some url; updated_at = now }

unfoldable pub soft_delete : Time → User → User
soft_delete now u = record u { deleted_at = some now; updated_at = now }

unfoldable pub is_deleted : User → Bool
is_deleted u = is_some u.deleted_at

abbrev pub given : Option String → Bool
given none = false
given (some s) = not (str_eq s "")

abbrev pub text_of : Option String → String
text_of none = ""
text_of (some s) = s

unfoldable pub display_name : User → String
display_name u = if given u.full_name then text_of u.full_name else u.username

unfoldable pub get_avatar_url : User → String
get_avatar_url u =
    if given u.oauth_avatar_url
    then text_of u.oauth_avatar_url
    else if given u.avatar_url
    then text_of u.avatar_url
    else concat "https://ui-avatars.com/api/?name=" (concat u.username "&background=random")
