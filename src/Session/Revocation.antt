-- ===== src/Session/Revocation.antt =====
-- What a revocation denies, and for how long (internal/service/session_service.go).
use video_streaming_service.Common.{
  ℕ, ℤ, pos, ◌+◌, ◌/◌, ◌^◌, ◌≤◌, ◌<◌, ◌≡◌, true, none, some, String, str_eq, ok, ◌-◌, Bool-cases,
  leb, arith, ap, ◌≢◌, lt→ltb, Option-cases, inl, inr,
}
use video_streaming_service.Common.Text.{codes}
use video_streaming_service.Common.Decimal.{format_nat, parse_int-format_nat}
use video_streaming_service.Domain.User.{Time}
use video_streaming_service.Redis.{Redis}
use video_streaming_service.Session.{
  revoked_token_key, min_issued_at_key, deny, revoke_token, revoke_all_user_sessions, marker_denies,
  is_revoked,
}

-- The two kinds of key never meet.
keys_apart : (a b : String) → min_issued_at_key a ≢ revoked_token_key b
keys_apart a b h = ground (arith, ap codes h)

-- A marker of the current millisecond denies what was minted before it ends.
marker_denies-format_nat :
    (issued cutoff : ℕ)
    → issued / 1000000 < cutoff
    → cutoff < 2 ^ 63
    → marker_denies (some (format_nat cutoff)) (pos issued) ≡ ok true
unfolding marker_denies
marker_denies-format_nat issued cutoff early small =
    rw (parse_int-format_nat cutoff small, marker_denies) (rw (lt→ltb _ _ early))

module _ {S : Type 0} (redis : Redis S) where
  -- An answer of `IsRevoked` while the token's own key or the user's marker is there.
  is_revoked_of_marker :
      (jti user_id raw : String) (issued : ℤ) (now : Time) (s : S)
      → redis.live s now (min_issued_at_key user_id) ≡ some raw
      → marker_denies (some raw) issued ≡ ok true
      → redis.mget (revoked_token_key jti) (min_issued_at_key user_id) now s ≢ none
      → is_revoked redis jti user_id issued now s ≡ ok true
  unfolding is_revoked
  is_revoked_of_marker jti user_id raw issued now s held denies answers =
      elim (Option-cases (redis.mget (revoked_token_key jti) (min_issued_at_key user_id) now s)) [
        | inl lost ↦ absurd (answers lost)
        | inr ((u, v), got) ↦ ground (
          arith,
          got,
          redis.mget_live (revoked_token_key jti) (min_issued_at_key user_id) now s u v got,
        )
      ]

  pub is_revoked_of_token :
      (jti user_id raw : String) (issued : ℤ) (now : Time) (s : S)
      → redis.live s now (revoked_token_key jti) ≡ some raw
      → redis.mget (revoked_token_key jti) (min_issued_at_key user_id) now s ≢ none
      → is_revoked redis jti user_id issued now s ≡ ok true
  unfolding is_revoked
  is_revoked_of_token jti user_id raw issued now s held answers =
      elim (Option-cases (redis.mget (revoked_token_key jti) (min_issued_at_key user_id) now s)) [
        | inl lost ↦ absurd (answers lost)
        | inr ((u, v), got) ↦ ground (
          arith,
          got,
          redis.mget_live (revoked_token_key jti) (min_issued_at_key user_id) now s u v got,
        )
      ]

module _ {S : Type 0} (redis : Redis S) (max_token_ttl : ℕ) where
  -- Once all sessions of a user are revoked, every token of that user that was minted up to the
  -- millisecond of the revocation is reported as revoked, whenever the server answers, until a
  -- millisecond before the longest lifetime of a token has gone by; the clock's milliseconds fit in 63 bits.
  pub revoke_all-is_revoked :
      (user_id jti : String) (issued now later : Time) (s : S)
      → (revoke_all_user_sessions redis max_token_ttl user_id now s).0 ≡ ok tt
      → issued / 1000000 ≤ now / 1000000
      → now / 1000000 + 1 < 2 ^ 63
      → now ≤ later
      → later + 1000000 ≤ now + max_token_ttl
      → redis.mget
          (revoked_token_key jti)
          (min_issued_at_key user_id)
          later
          (revoke_all_user_sessions redis max_token_ttl user_id now s).1
        ≢ none
      → is_revoked redis jti user_id
          (pos issued)
          later
          (revoke_all_user_sessions redis max_token_ttl user_id now s).1
        ≡ ok true
  unfolding revoke_all_user_sessions
  revoke_all-is_revoked user_id jti issued now later s done early small after within answers =
      let raw = format_nat (now / 1000000 + 1) in
      let key = min_issued_at_key user_id in
      let answered : (redis.set key raw max_token_ttl now s).0 ≡ true = ground arith in
      is_revoked_of_marker redis jti user_id raw (pos issued) later
        (redis.set key raw max_token_ttl now s).1
        (redis.set_live key raw max_token_ttl now later s answered after within)
        (marker_denies-format_nat issued (now / 1000000 + 1) (omega arith) small) answers

  revoke_token-deny :
      (jti : String) (expires_at now : Time) (s : S)
      → now < expires_at
      → (revoke_token redis max_token_ttl jti (some expires_at) now s).0 ≡ ok tt
      → revoke_token redis max_token_ttl jti (some expires_at) now s
        ≡ deny redis max_token_ttl jti (expires_at - now) now s
  unfolding revoke_token
  revoke_token-deny jti expires_at now s early done = elim (Bool-cases (str_eq jti "")) [
    | inl empty ↦ absurd (ground (arith, empty))
    | inr named ↦ elim (Bool-cases (leb expires_at now)) [
      | inl late ↦ absurd (ground (arith, late))
      | inr live ↦ rw named (rw live)
    ]
  ]

  deny-live :
      (jti : String) (ttl : ℕ) (now later : Time) (s : S)
      → (deny redis max_token_ttl jti ttl now s).0 ≡ ok tt
      → now ≤ later
      → later + 1000000 ≤ now + ttl
      → redis.live (deny redis max_token_ttl jti ttl now s).1 later (revoked_token_key jti)
        ≡ some "1"
  unfolding deny
  deny-live jti ttl now later s done after within =
      let key = revoked_token_key jti in
      let answered : (redis.set key "1" ttl now s).0 ≡ true = ground arith in
      redis.set_live key "1" ttl now later s answered after within

  pub revoke_token-live :
      (jti : String) (expires_at now later : Time) (s : S)
      → (revoke_token redis max_token_ttl jti (some expires_at) now s).0 ≡ ok tt
      → now ≤ later
      → later + 1000000 ≤ expires_at
      → redis.live
          (revoke_token redis max_token_ttl jti (some expires_at) now s).1
          later
          (revoked_token_key jti)
        ≡ some "1"
  revoke_token-live jti expires_at now later s done after within =
      let e = revoke_token-deny jti expires_at now s (omega arith) done in
      rw e (deny-live jti (expires_at - now) now later s (rw e at done) after (omega arith))

  -- Once a token is revoked it is reported as revoked, whenever the server answers, until a
  -- millisecond before it expires.
  pub revoke_token-is_revoked :
      (jti user_id : String) (issued : ℤ) (expires_at now later : Time) (s : S)
      → (revoke_token redis max_token_ttl jti (some expires_at) now s).0 ≡ ok tt
      → now ≤ later
      → later + 1000000 ≤ expires_at
      → redis.mget
          (revoked_token_key jti)
          (min_issued_at_key user_id)
          later
          (revoke_token redis max_token_ttl jti (some expires_at) now s).1
        ≢ none
      → is_revoked redis jti user_id issued later
          (revoke_token redis max_token_ttl jti (some expires_at) now s).1
        ≡ ok true
  revoke_token-is_revoked jti user_id issued expires_at now later s done after within answers =
      is_revoked_of_token redis jti user_id "1" issued later
        (revoke_token redis max_token_ttl jti (some expires_at) now s).1
        (revoke_token-live jti expires_at now later s done after within) answers
