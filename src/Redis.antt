-- ===== src/Redis.antt =====
-- The Redis commands that the service sends, through github.com/redis/go-redis: a parameter. `S` is
-- what the server holds; a time is a number of nanoseconds.
use video_streaming_service.Common.{ℕ, ◌+◌, ◌≤◌, ◌≡◌, ◌≢◌, Bool, true, Option, some, String}
use video_streaming_service.Domain.User.{Time}

-- `live s t k` is the value that the key `k` holds at the time `t` if no further command comes.
-- `set k v ttl now s` is SET with an expiry: its Boolean says whether the server answered. The
-- expiry is counted in whole milliseconds, so a key may go up to one millisecond before `ttl`.
-- `mget` is MGET of two keys; `none` where the server did not answer.
pub record Redis (S : Type 0) : Type 0 where
  pub live : S → Time → String → Option String
  pub set : String → String → ℕ → Time → S → Bool × S
  pub mget : String → String → Time → S → Option (Option String × Option String)
  pub mget_live :
      (k j : String) (now : Time) (s : S) (u v : Option String)
      → mget k j now s ≡ some (u, v)
      → (u ≡ live s now k) × (v ≡ live s now j)
  pub set_live :
      (k v : String) (ttl : ℕ) (now t : Time) (s : S)
      → (set k v ttl now s).0 ≡ true
      → now ≤ t
      → t + 1000000 ≤ now + ttl
      → live (set k v ttl now s).1 t k ≡ some v
  pub set_other :
      (k v j : String) (ttl : ℕ) (now t : Time) (s : S)
      → k ≢ j
      → now ≤ t
      → live (set k v ttl now s).1 t j ≡ live s t j
