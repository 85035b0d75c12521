-- ===== src/Domain/User/Profile.antt =====
-- Accounts stay valid (internal/domain/user.go).
use video_streaming_service.Common.{
  ◌≡◌, refl, false, Option, String, ok, arith, >>=-eq-ok, ok-injective, subst, ◌∙◌,
}
use video_streaming_service.Domain.Role.{Role}
use video_streaming_service.Domain.User.{
  User, Time, Uuid, can_upload_videos, is_currently_banned, is_password_reset_token_valid,
  is_deleted, validate, draft_user, new_user, update_profile,
}

-- What `NewUser` promises of an account that it accepts.
pub record IsFresh (now : Time) (hash : String) (role : Role) (u : User) : Type 0 where
  pub valid : validate u ≡ ok tt
  pub hash_kept : u.password_hash ≡ hash
  pub role_kept : u.role ≡ role
  pub not_verified : u.email_verified ≡ false
  pub no_upload : can_upload_videos u ≡ false
  pub not_banned : is_currently_banned now u ≡ false
  pub no_reset : is_password_reset_token_valid now u ≡ false
  pub not_deleted : is_deleted u ≡ false

-- An account that `NewUser` accepts passes the validation, has the hash and the role that were given, and is
-- neither verified, banned nor deleted; it may not upload and has no reset token in force.
pub new_user-IsFresh :
    (to_lower : String → String) (fresh : Uuid) (now : Time) (username email hash : String)
    (role : Role) (u : User)
    → new_user to_lower fresh now username email hash role ≡ ok u
    → IsFresh now hash role u
unfolding new_user draft_user can_upload_videos is_currently_banned is_password_reset_token_valid
    is_deleted
new_user-IsFresh to_lower fresh now username email hash role u h =
    let draft = draft_user to_lower fresh now username email hash role in
    let (t, valid, same) = >>=-eq-ok (validate draft) (λ _. ok draft) h in
    subst (IsFresh now hash role) (ok-injective same) (record {
      valid = valid ∙ refl;
      hash_kept = refl;
      role_kept = refl;
      not_verified = refl;
      no_upload = refl;
      not_banned = refl;
      no_reset = refl;
      not_deleted = refl;
    })

-- Whatever the outcome, a profile update leaves a valid account valid.
pub update_profile-validate :
    (now : Time) (name bio : Option String) (u : User)
    → validate u ≡ ok tt
    → validate (update_profile now name bio u).1 ≡ ok tt
unfolding validate update_profile
update_profile-validate now name bio u h = ground arith

-- What an update of the profile may not touch.
record SameAccount (u v : User) : Type 0 where
  id : u.id ≡ v.id
  username : u.username ≡ v.username
  email : u.email ≡ v.email
  password_hash : u.password_hash ≡ v.password_hash
  role : u.role ≡ v.role
  email_verified : u.email_verified ≡ v.email_verified
  is_banned : u.is_banned ≡ v.is_banned
  deleted_at : u.deleted_at ≡ v.deleted_at

-- Whatever the outcome, a profile update changes neither the id, the name, the address, the hash, the
-- role, the verification, the ban nor the deletion of an account.
update_profile-SameAccount :
    (now : Time) (name bio : Option String) (u : User)
    → SameAccount u (update_profile now name bio u).1
unfolding update_profile
update_profile-SameAccount now name bio u = ground arith
