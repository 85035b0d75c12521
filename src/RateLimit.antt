-- ===== src/RateLimit.antt =====
-- internal/middleware/rate_limiter.go: the fixed-window limiter. A time is a number of nanoseconds
-- from 1970; the Redis counters are a parameter.
pub mod Window
pub mod Concurrency
use video_streaming_service.Common.{
  ℕ, ℤ, pos, negsuc, suc, ◌+◌, ◌-◌, ◌*◌, ◌/◌, ◌%◌, ◌≤◌, ◌≡◌, Bool, true, false, not, List, [], ◌∷◌,
  Option, none, some, String, str_eq, Result, ok, err, other, ltb, leb, ◌==◌, if◌then◌else◌,
}
use video_streaming_service.Common.Text.{concat}
use video_streaming_service.Common.Decimal.{format_nat}
use video_streaming_service.Domain.User.{Uuid, Time}
use video_streaming_service.Auth.{Principal}

abbrev pub second : ℕ
second = 1000000000

pub record RateLimitRule : Type 0 where
  pub requests : ℕ
  pub window : ℕ
  pub burst_size : ℕ

unfoldable pub limit : RateLimitRule → ℕ
limit r = r.requests + r.burst_size

abbrev pub rule_guest : String
rule_guest = "guest_api"

abbrev pub rule_of : ℕ → ℕ → ℕ → RateLimitRule
rule_of requests window burst_size = record {
  requests = requests;
  window = window;
  burst_size = burst_size;
}

abbrev pub default_rate_limits : List (String × RateLimitRule)
default_rate_limits =
    (rule_guest, rule_of 30 (60 * second) 10)
    ∷ ("user_api", rule_of 60 (60 * second) 20)
    ∷ ("premium_api", rule_of 300 (60 * second) 50)
    ∷ ("upload", rule_of 5 (3600 * second) 2)
    ∷ ("search", rule_of 30 (60 * second) 10)
    ∷ ("streaming", rule_of 300 (60 * second) 100)
    ∷ ("auth", rule_of 10 (60 * second) 5)
    ∷ []

-- A map from names to rules: the first entry of a name counts.
abbrev pub Rules : Type 0
Rules = List (String × RateLimitRule)

abbrev pub new_rate_limiter : Rules
new_rate_limiter = default_rate_limits

unfoldable pub set_rule : String → RateLimitRule → Rules → Rules
set_rule name r rules = (name, r) ∷ rules

unfoldable pub find_rule : String → Rules → Option RateLimitRule
find_rule name [] = none
find_rule name ((key, r) ∷ rules) =
    let rest = find_rule name rules in if str_eq key name then some r else rest

-- `rl.rules[name]` of a name that is missing is the zero rule.
abbrev pub rule_or_zero : Option RateLimitRule → RateLimitRule
rule_or_zero none = rule_of 0 0 0
rule_or_zero (some r) = r

unfoldable pub rule : String → Rules → RateLimitRule
rule name rules = elim (find_rule name rules) [
  | some r ↦ r
  | none ↦ rule_or_zero (find_rule rule_guest rules)
]

pub record Decision : Type 0 where
  pub allowed : Bool
  pub limit : ℕ
  pub remaining : ℕ
  pub reset_in : ℕ

-- The nanoseconds from the beginning of the year 1, from which Time.Truncate counts, to 1970.
abbrev pub zero_time : ℕ
zero_time = 62135596800 * second

-- `now.Truncate(window)`, in nanoseconds from the year 1; a window of no length leaves the time.
unfoldable pub window_start : ℕ → Time → ℕ
window_start window now = let t = zero_time + now in if window == 0 then t else t - t % window

-- `Unix()` of nanoseconds from the year 1, in decimal
unix_text : ℕ → String
unix_text t =
    if leb zero_time t
    then format_nat ((t - zero_time) / second)
    else concat "-" (format_nat ((zero_time - t + (second - 1)) / second))

unfoldable pub window_key : String → String → ℕ → String
unfolding unix_text
window_key rule_name key start =
    concat "ratelimit:" (concat rule_name (concat ":" (concat key (concat ":" (unix_text start)))))

-- The pipeline of INCR and EXPIRE on one key: `count s t k` is the counter of `k` at the time `t`, 0
-- if there is none. An answer is the new count; the expiry is sent in whole seconds, and the server
-- counts it from its clock's millisecond.
pub record Counters (S : Type 0) : Type 0 where
  pub count : S → Time → String → ℕ
  pub incr_expire : String → ℕ → Time → S → Option ℕ × S
  pub incr_value :
      (key : String) (window : ℕ) (now : Time) (s : S) (n : ℕ)
      → (incr_expire key window now s).0 ≡ some n
      → n ≡ suc (count s now key)
  pub incr_kept :
      (key : String) (window : ℕ) (now t : Time) (s : S) (n : ℕ)
      → (incr_expire key window now s).0 ≡ some n
      → now ≤ t
      → t + 1000000 ≤ now + window / second * second
      → count (incr_expire key window now s).1 t key ≡ n

-- `Allow` once the counter has answered; `none` is an error of the pipeline.
unfoldable pub decide : RateLimitRule → Time → Option ℕ → Result Decision
decide r now none = err (other "rate limit check")
decide r now (some count) = ok (record {
  allowed = leb count (limit r);
  limit = limit r;
  remaining = limit r - count;
  reset_in = window_start r.window now + r.window - (zero_time + now);
})

-- `rateLimitKey`, over the principal of the context and the client's address
unfoldable pub rate_limit_key : (Uuid → String) → String → Option Principal → String
rate_limit_key print_uuid client_ip none = concat "ip:" client_ip
rate_limit_key print_uuid client_ip (some p) = concat "user:" (print_uuid p.user_id)

pub record Headers : Type 0 where
  pub limit : ℕ
  pub remaining : ℕ
  pub reset : ℕ

-- The request goes on, with headers or, where the limiter failed, without; or it is answered by 429
-- with the header Retry-After.
pub data Answer : Type 0 where
  goes_on : Option Headers → Answer
  too_many : Headers → ℕ → Answer

-- `rateLimitWith` after `Allow`; `later` is the second reading of the clock.
unfoldable pub answer : Time → Result Decision → Answer
answer later (err e) = goes_on none
answer later (ok d) =
    let headers : Headers = record {
      limit = d.limit;
      remaining = d.remaining;
      reset = (later + d.reset_in) / second;
    } in
    if not d.allowed then too_many headers (d.reset_in / second + 1) else goes_on (some headers)

module _ {S : Type 0} (counters : Counters S) (rules : Rules) where
  unfoldable pub allow : String → String → Time → S → Result Decision × S
  unfolding decide
  allow key rule_name now s =
      let r = rule rule_name rules in
      let (count, s') =
        counters.incr_expire (window_key rule_name key (window_start r.window now)) r.window now
          s in
      (decide r now count, s')

  unfoldable pub rate_limit_with : String → String → Time → Time → S → Answer × S
  unfolding answer
  rate_limit_with rule_name key now later s =
      let (decision, s') = allow key rule_name now s in (answer later decision, s')
