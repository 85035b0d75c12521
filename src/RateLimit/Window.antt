-- ===== src/RateLimit/Window.antt =====
-- How many requests of one caller a window admits (internal/middleware/rate_limiter.go).
use video_streaming_service.Common.{
  ℕ, suc, ◌+◌, ◌-◌, ◌*◌, ◌/◌, ◌≤◌, ◌≡◌, List, [], ◌∷◌, map, length, String, Result, ok, arith, leb,
  if◌then◌else◌, Option-cases, inl, inr,
}
use video_streaming_service.Domain.User.{Time}
use video_streaming_service.RateLimit.{
  second, RateLimitRule, limit, Rules, rule, Decision, zero_time, window_start, window_key,
  Counters, decide, allow,
}

-- How many decisions let their request through.
abbrev pub permitted : List Decision → ℕ
permitted [] = 0
permitted (d ∷ ds) = (if d.allowed then 1 else 0) + permitted ds

-- Times that follow each other, from `since` on, in the window that begins at `start`, up to a
-- millisecond before its end.
abbrev pub InWindow : ℕ → ℕ → Time → List Time → Type 0
InWindow window start since [] = Unit
InWindow window start since (t ∷ ts) =
    (since ≤ t)
    × (window_start window t ≡ start)
    × (zero_time + t + 1000000 ≤ start + window)
    × InWindow window start t ts

window_start-le : (window : ℕ) (t : Time) → window_start window t ≤ zero_time + t
unfolding window_start
window_start-le window t = ground arith

module _ {S : Type 0} (counters : Counters S) (rules : Rules) (key rule_name : String) where
  -- The decisions on the requests of one caller at the given times.
  unfoldable pub allow_all : List Time → S → List (Result Decision) × S
  allow_all [] s = ([], s)
  allow_all (t ∷ ts) s =
      let (d, s') = allow counters rules key rule_name t s in
      let (ds, s'') = allow_all ts s' in (d ∷ ds, s'')

  -- One answered request: the counter goes up by one, and stays until the end of the window.
  allow-counted :
      (r : RateLimitRule) (start count : ℕ) (t : Time) (s : S) (d : Decision)
      → rule rule_name rules ≡ r
      → r.window / second * second ≡ r.window
      → window_start r.window t ≡ start
      → counters.count s t (window_key rule_name key start) ≡ count
      → (allow counters rules key rule_name t s).0 ≡ ok d
      → (d.allowed ≡ leb (suc count) (limit r))
        × ((t' : Time)
            → t ≤ t'
            → zero_time + t' + 1000000 ≤ start + r.window
            → counters.count
                (allow counters rules key rule_name t s).1
                t'
                (window_key rule_name key start)
              ≡ suc count)
  unfolding allow decide
  allow-counted r start count t s d named whole here held h =
      let k = window_key rule_name key start in
      let first = window_start-le r.window t in
      elim (Option-cases (counters.incr_expire k r.window t s).0) [
        | inl lost ↦ absurd (ground (arith, lost, named, here))
        | inr (n, got) ↦
            let value = counters.incr_value k r.window t s n got in
            (
              ground (arith, got, named, here, value, held),
              λ t' later within. rw named (
                  rw here (
                    cc (
                      counters.incr_kept k r.window t t' s n got later
                          (omega (arith, whole, first, here, within)),
                      value,
                      held,
                    ))),
            )
      ]

  -- Of the requests of one caller that fall in one window, up to a millisecond before its end, and that
  -- the server answers, exactly as many are let through as the limit leaves beyond the count that the
  -- window began with (or all of them, if they are fewer); the rule's window is in whole seconds.
  pub allow_all-permitted :
      (r : RateLimitRule) (start count : ℕ) (since : Time) (ts : List Time) (s : S)
      (ds : List Decision)
      → rule rule_name rules ≡ r
      → r.window / second * second ≡ r.window
      → InWindow r.window start since ts
      → ((t : Time)
          → since ≤ t
          → zero_time + t + 1000000 ≤ start + r.window
          → counters.count s t (window_key rule_name key start) ≡ count)
      → (allow_all ts s).0 ≡ map ok ds
      → permitted ds ≡ (if leb (length ts) (limit r - count) then length ts else limit r - count)
  unfolding allow_all allow
  allow_all-permitted r start count since [] s [] named whole inside held h = ground arith
  allow_all-permitted r start count since [] s (d ∷ ds) named whole inside held h = cc
  allow_all-permitted r start count since (t ∷ ts) s [] named whole inside held h = cc
  allow_all-permitted r start count since (t ∷ ts) s (d ∷ ds) named whole
        (after, here, before, inside) held h =
      let s' = (allow counters rules key rule_name t s).1 in
      let now_held = held t after before in
      let first : (allow counters rules key rule_name t s).0 ≡ ok d = cc h in
      let rest : (allow_all ts s').0 ≡ map ok ds = cc h in
      let (passed, held') = allow-counted r start count t s d named whole here now_held first in
      ground (
        arith,
        passed,
        allow_all-permitted r start (suc count) t ts s' ds named whole inside held' rest,
      )
