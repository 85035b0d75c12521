-- ===== src/Account/SignOut.antt =====
-- What a sign-out denies (internal/service/auth_service.go).
use video_streaming_service.Common.{
  ℕ, ◌+◌, ◌-◌, ◌≤◌, ◌≡◌, ◌≢◌, refl, true, false, Option, none, some, String, str_eq, Result, ok,
  err, arith, inl, inr, ◌⊎◌, ◌∙◌,
}
use video_streaming_service.Domain.User.{Time}
use video_streaming_service.Token.{Claims, issued_at_time, validate_token}
use video_streaming_service.Session.{
  revoked_token_key, min_issued_at_key, deny, revoke_token, is_revoked,
}
use video_streaming_service.Session.Revocation.{revoke_token-live, is_revoked_of_token}
use video_streaming_service.Account.{AuthService, revoke_by_claims, logout_refresh, logout}

revoked_token_key-injective : {x y : String} → revoked_token_key x ≡ revoked_token_key y → x ≡ y
revoked_token_key-injective e = cc

module _ {D S : Type 0} (a : AuthService D S) where
  -- The key of a token is live at a time.
  abbrev Held : String → Time → S → Type 0
  Held jti t s = a.redis.live s t (revoked_token_key jti) ≡ some "1"

  deny-Held :
      (jti other_jti : String) (ttl : ℕ) (now later : Time) (s : S)
      → other_jti ≢ jti
      → now ≤ later
      → Held jti later s
      → Held jti later (deny a.redis a.max_token_ttl other_jti ttl now s).1
  unfolding deny
  deny-Held jti other_jti ttl now later s apart after held =
      a.redis.set_other (revoked_token_key other_jti) "1" (revoked_token_key jti) ttl now later s
        (λ e. apart (revoked_token_key-injective e)) after
      ∙ held

  -- A write for another token leaves a key that is live as it is.
  revoke_token-Held :
      (jti other_jti : String) (exp : Option Time) (now later : Time) (s : S)
      → other_jti ≢ jti
      → now ≤ later
      → Held jti later s
      → Held jti later (revoke_token a.redis a.max_token_ttl other_jti exp now s).1
  unfolding revoke_token
  revoke_token-Held jti other_jti none now later s apart after held =
      ground (arith, deny-Held jti other_jti a.max_token_ttl now later s)
  revoke_token-Held jti other_jti (some t) now later s apart after held =
      ground (arith, deny-Held jti other_jti (t - now) now later s)

  logout_refresh-Held :
      (jti : String) (m : Result Claims) (now later : Time) (s : S)
      → ((c : Claims) → m ≡ ok c → c.id ≢ jti)
      → now ≤ later
      → Held jti later s
      → Held jti later (logout_refresh a m now s).1
  unfolding logout_refresh revoke_by_claims
  logout_refresh-Held jti (err e) now later s apart after held = held
  logout_refresh-Held jti (ok c) now later s apart after held =
      ground (arith, revoke_token-Held jti c.id c.expires_at now later s (apart c refl) after held)

  -- The first half of a logout sets the key of the access token.
  revoke_by_claims-Held :
      (c : Claims) (exp now later : Time) (s : S)
      → str_eq c.id "" ≡ false
      → c.expires_at ≡ some exp
      → now ≤ later
      → later + 1000000 ≤ exp
      → (revoke_by_claims a c now s).0 ≡ ok tt
      → Held c.id later (revoke_by_claims a c now s).1
  unfolding revoke_by_claims
  revoke_by_claims-Held c exp now later s named expires after within done =
      let e : revoke_by_claims a c now s
          ≡ revoke_token a.redis a.max_token_ttl c.id (some exp) now s =
        rw named (rw expires) in
      rw e
        (revoke_token-live a.redis a.max_token_ttl c.id exp now later s (rw e at done) after within)

  logout-ok :
      (access_token refresh_token : String) (c : Claims) (now : Time) (s s' : S)
      → validate_token a.jwt a.tokens now access_token ≡ ok c
      → logout a access_token refresh_token now s ≡ (ok tt, s')
      → ((revoke_by_claims a c now s).0 ≡ ok tt)
        × ((s' ≡ (revoke_by_claims a c now s).1)
            ⊎ (s'
                ≡ (logout_refresh a
                    (validate_token a.jwt a.tokens now refresh_token)
                    now
                    (revoke_by_claims a c now s).1).1))
  unfolding logout
  logout-ok access_token refresh_token c now s s' valid done = ground (arith, valid)

  -- A logout that succeeds denies the access token that was presented, whenever the server answers,
  -- until a millisecond before it expires; the token has an id and an expiry, and the refresh token
  -- that came with it does not share the id.
  pub logout-is_revoked :
      (access_token refresh_token : String) (c : Claims) (exp now later : Time) (s s' : S)
      → validate_token a.jwt a.tokens now access_token ≡ ok c
      → str_eq c.id "" ≡ false
      → c.expires_at ≡ some exp
      → ((r : Claims) → validate_token a.jwt a.tokens now refresh_token ≡ ok r → r.id ≢ c.id)
      → logout a access_token refresh_token now s ≡ (ok tt, s')
      → now ≤ later
      → later + 1000000 ≤ exp
      → a.redis.mget (revoked_token_key c.id) (min_issued_at_key c.user_id) later s' ≢ none
      → is_revoked a.redis c.id c.user_id (issued_at_time c) later s' ≡ ok true
  logout-is_revoked access_token refresh_token c exp now later s s' valid named expires apart done
        after within answers =
      let (first, second) = logout-ok access_token refresh_token c now s s' valid done in
      let held = revoke_by_claims-Held c exp now later s named expires after within first in
      is_revoked_of_token a.redis c.id c.user_id "1" (issued_at_time c) later s'
        (elim second [
          | inl e ↦ rw e held
          | inr e ↦ rw e (
              logout_refresh-Held c.id (validate_token a.jwt a.tokens now refresh_token) now later
                (revoke_by_claims a c now s).1 apart after held)
        ])
        answers
