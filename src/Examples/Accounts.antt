-- ===== src/Examples/Accounts.antt =====
-- Passwords, roles, accounts and sessions at work (pkg/security, internal/domain,
-- internal/service/auth_service.go).
use video_streaming_service.Common.{
  ap, ok-injective, ◌∙◌, str_eq_iff, ◌≡◌, ◌≢◌, ◌↔◌, inr, refl, true, false, some, ok, err,
  invalid_credentials, arith, String, List, [], ◌∷◌, user_not_found,
}
use video_streaming_service.Common.Text.{trim_space, contains_code}
use video_streaming_service.Domain.Role.{
  upload_video, role_user, role_permissions, grants, has_permission, is_valid,
}
use video_streaming_service.Domain.Role.Rights.{has_permission-is_valid, StaffRights, rights}
use video_streaming_service.Domain.User.{
  User, username_matches, email_matches, validate, draft_user, new_user, update_profile,
  is_currently_banned, update_last_login,
}
use video_streaming_service.Domain.User.Profile.{IsFresh, new_user-IsFresh, update_profile-validate}
use video_streaming_service.Password.{
  is_common, is_special, see, see_all, validate_password, hash_password, compare_password,
}
use video_streaming_service.Password.Policy.{IsStrong, validate_password_iff}
use video_streaming_service.Token.{
  Claims, numeric_date, claims_for, issued_at_time, sign, generate_token, generate_refresh_token,
  validate_token, validate as validate_kind, validate_refresh_token,
}
use video_streaming_service.Session.{revoke_token, deny, is_revoked, verdict, marker_denies}
use video_streaming_service.Account.{
  AuthService, UserRepository, TokenPair, renew_access, issue_tokens, prepare, register_user,
  register, lookup, login_user, login, lookup_by_id, refresh, revoke_by_claims, logout_refresh,
  logout_rest, logout_claims, logout,
}
use video_streaming_service.Account.SignUp.{SignedUp, register-SignedUp}
use video_streaming_service.Account.SignIn.{
  SignedIn, login-SignedIn, login-invalid_credentials, Renewed, refresh-Renewed,
}
use video_streaming_service.Account.SignOut.{logout-is_revoked}
use video_streaming_service.Examples.Fixtures.{
  tokens, minted, access_claims, claims_eq, signed, read_claims, jwt, empty, ann, classes, service,
  Store,
}

test_names :
    (username_matches "al_9" ≡ true)
    × (username_matches "al" ≡ false)
    × (username_matches "a-b" ≡ false)
unfolding username_matches
test_names = (refl, refl, refl)

test_emails :
    (email_matches "a.b@x-y.co.uk" ≡ true)
    × (email_matches "a@b" ≡ false)
    × (email_matches "a@@b.com" ≡ false)
    × (email_matches "a@.com" ≡ false)
    × (email_matches "a@b.c" ≡ false)
unfolding email_matches
test_emails = (refl, refl, refl, refl, refl)

has_permission-is_valid_example : is_valid role_user ≡ true
unfolding has_permission role_permissions grants
has_permission-is_valid_example = has_permission-is_valid role_user upload_video refl

rights_example : StaffRights role_user
rights_example = rights role_user

validate_password_iff_example :
    (validate_password classes "Secret-12" ≡ ok tt) ↔ IsStrong classes "Secret-12"
validate_password_iff_example = validate_password_iff classes "Secret-12"

new_user-IsFresh_example : IsFresh minted "hash:Secret-12" role_user ann
unfolding new_user draft_user validate is_valid username_matches email_matches trim_space
new_user-IsFresh_example =
    new_user-IsFresh (λ s. s) 7 minted "ann" "ann@example.org" "hash:Secret-12" role_user ann refl

update_profile-validate_example :
    validate (update_profile minted (some "Ann") (some "hello") ann).1 ≡ ok tt
unfolding draft_user validate is_valid username_matches email_matches trim_space
update_profile-validate_example =
    update_profile-validate minted (some "Ann") (some "hello") ann refl

-- The tokens that ann gets at her sign-in.
abbrev pair : TokenPair
pair = record {
  access_token = "signed-a";
  refresh_token = "signed-r";
  token_type = "Bearer";
  expires_in = 900;
  refresh_expires_in = 3600;
  user = record ann { password_hash = ""; last_login_at = some minted; updated_at = minted };
}

login-SignedIn_example : SignedIn service "ann" "Secret-12" minted tt pair
unfolding login lookup trim_space contains_code login_user compare_password is_currently_banned
    update_last_login issue_tokens renew_access generate_token generate_refresh_token sign
    claims_for numeric_date signed claims_eq draft_user
login-SignedIn_example = login-SignedIn service "ann" "Secret-12" "r" "a" minted tt pair refl

login-invalid_credentials_example :
    login service "ann" "guess" minted "r" "a" tt ≡ (err invalid_credentials, tt)
unfolding lookup trim_space contains_code compare_password draft_user
login-invalid_credentials_example =
    login-invalid_credentials service "ann" "guess" "r" "a" minted tt (inr (ann, refl, refl))

-- The same pair as a registration issues it.
abbrev first_pair : TokenPair
first_pair = record pair { user = record ann { password_hash = "" } }

-- A store that keeps every account.
abbrev growing : UserRepository (List User)
growing = record {
  create = λ user db. (ok tt, user ∷ db);
  get_by_id = λ id db. err user_not_found;
  get_by_username = λ name db. err user_not_found;
  get_by_email = λ email db. err user_not_found;
  update = λ user db. (ok tt, db);
}

abbrev registry : AuthService (List User) Store
registry = record {
  users = growing;
  redis = service.redis;
  jwt = jwt;
  tokens = tokens;
  max_token_ttl = 3600000000000;
  access_token_ttl = 900000000000;
  refresh_token_ttl = 3600000000000;
  classes = classes;
  bcrypt = service.bcrypt;
  to_lower = λ s. s;
  print_uuid = service.print_uuid;
  parse_uuid = service.parse_uuid;
}

register-SignedUp_example :
    SignedUp registry minted "Secret-12" []
      (register registry 7 minted "r" "a" "ann" "ann@example.org" "Secret-12" []).1
      first_pair
unfolding register register_user prepare validate_password is_common is_special see_all see
    hash_password new_user validate is_valid username_matches email_matches trim_space draft_user
    issue_tokens renew_access generate_token generate_refresh_token sign claims_for numeric_date
    signed claims_eq
register-SignedUp_example =
    register-SignedUp registry 7 minted "r" "a" "ann" "ann@example.org" "Secret-12" [] first_pair
      refl

refresh-Renewed_example :
    Renewed service "signed-r" "a" minted tt empty (record first_pair { access_token = "signed-a" })
unfolding refresh validate_refresh_token validate_kind validate_token read_claims issued_at_time
    is_revoked verdict marker_denies lookup_by_id is_currently_banned renew_access generate_token
    sign claims_for numeric_date signed claims_eq draft_user trim_space
refresh-Renewed_example =
    refresh-Renewed service "signed-r" "a" minted tt empty
      (record first_pair { access_token = "signed-a" }) refl

letters_apart : ◌≢◌ {A = String} "r" "a"
letters_apart e = cc ((str_eq_iff "r" "a").1 e)

ids_apart :
    (r : Claims)
    → validate_token jwt tokens 6000000000 "signed-r" ≡ ok r
    → ◌≢◌ {A = String} r.id "a"
unfolding validate_token read_claims
ids_apart r h same = letters_apart (ap (λ c. c.id) (ok-injective h) ∙ same)

logout-is_revoked_example :
    is_revoked service.redis "a" "7"
      (issued_at_time access_claims)
      8000000000
      (logout service "signed-a" "signed-r" 6000000000 empty).1
    ≡ ok true
unfolding logout logout_claims logout_rest logout_refresh revoke_by_claims revoke_token deny
    validate_token read_claims
logout-is_revoked_example =
    logout-is_revoked service "signed-a" "signed-r" access_claims 905000000000 6000000000 8000000000
      empty (logout service "signed-a" "signed-r" 6000000000 empty).1 refl refl refl ids_apart refl
      (omega arith) (omega arith) (λ h. cc h)
