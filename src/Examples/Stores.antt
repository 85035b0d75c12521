-- ===== src/Examples/Stores.antt =====
-- The file store, the rate limiter and the progress of viewers at work (internal/storage,
-- internal/middleware/rate_limiter.go, internal/service/view_tracker.go).
use video_streaming_service.Common.{
  lt_int, ◌&&◌, storage_key_invalid, ℕ, suc, pos, ◌+◌, ◌/◌, ◌*◌, ◌≡◌, ◌≤◌, ◌⊎◌, refl, true, false,
  List, [], ◌∷◌, Option, some, none, String, str_eq, str_eq_iff, ok, err, other, arith, leb,
  if◌then◌else◌,
}
use video_streaming_service.Common.Text.{codes, contains_code}
use video_streaming_service.Common.Decimal.{format_nat}
use video_streaming_service.Domain.User.{Time}
use video_streaming_service.Storage.{
  push_head, split, cut, validate_key, CleanPath, clean_from, clean, join, Local, resolve, Files,
  path_eq, Io, save_at, save,
}
use video_streaming_service.Storage.Containment.{IsWithin, resolve-IsWithin}
use video_streaming_service.Storage.Writes.{Announces, save-ok, save-err}
use video_streaming_service.RateLimit.{
  rule_of, second, limit, Decision, find_rule, rule, default_rate_limits, zero_time, window_start,
  window_key, Counters, decide, allow,
}
use video_streaming_service.RateLimit.Concurrency.{
  enters, leaves, withdraws, lapses, incr, decr, step, run_steps, no_requests, run_steps-bounded,
}
use video_streaming_service.Progress.{WatchHistory, validate, to_int32, entry_of, save_progress}
use video_streaming_service.Progress.Resume.{Extends, save_progress-Extends}
use video_streaming_service.RateLimit.Window.{permitted, allow_all, allow_all-permitted}

abbrev disk : Local
disk = record { root = "uploads"; transcoded = "/srv/out"; thumbnails = "thumbs" }

abbrev key : String
key = "transcoded//7/./hls/a.ts"

abbrev place : CleanPath
place = record {
  rooted = true;
  segments = codes "srv" ∷ codes "out" ∷ codes "7" ∷ codes "hls" ∷ codes "a.ts" ∷ [];
}

refused_keys :
    (validate_key "raw/../x" ≡ err storage_key_invalid)
    × (validate_key "/etc" ≡ err storage_key_invalid)
    × (validate_key "raw/..x" ≡ ok tt)
unfolding validate_key split push_head contains_code
refused_keys = (refl, refl, refl)

resolve-IsWithin_example :
    IsWithin (clean (codes "uploads")) place
    ⊎ (IsWithin (clean (codes "/srv/out")) place ⊎ IsWithin (clean (codes "thumbs")) place)
unfolding resolve validate_key cut join clean clean_from split push_head contains_code
resolve-IsWithin_example = resolve-IsWithin disk key place (λ e. cc e) (λ e. cc e) (λ e. cc e) refl

abbrev no_files : Files
no_files p = none

abbrev fine : Io
fine = record {
  makes_dir = true;
  creates = true;
  offers = 9;
  breaks_at = none;
  closes = true;
  removes = true;
}

save-ok_example :
    (p : CleanPath) × (resolve disk key ≡ ok p)
    × ((save disk key (pos 9) fine no_files).1 p ≡ some 9)
    × (fine.breaks_at ≡ none)
    × (fine.closes ≡ true)
    × Announces (pos 9) 9
unfolding save save_at resolve validate_key cut join clean clean_from split push_head contains_code
save-ok_example = save-ok disk key (pos 9) fine no_files refl

save-err_example :
    ((save disk key (pos 12) fine no_files).1 place ≡ none)
    ⊎ ((p : CleanPath) × (resolve disk key ≡ ok p)
        × (path_eq p place ≡ true)
        × ((save disk key (pos 12) fine no_files).1 place ≡ none))
unfolding save save_at resolve validate_key cut join clean clean_from split push_head contains_code
save-err_example = save-err disk key (pos 12) fine no_files (other "writing") place refl refl

-- Counters by key and time.
abbrev Table : Type 0
Table = Time → String → ℕ

abbrev bumped : String → ℕ → Time → Table → Table
bumped k window now s t j =
    if str_eq k j then (if leb (now + window) t then 0 else suc (s now k)) else s t j

bumped-kept :
    (k : String) (window : ℕ) (now t : Time) (s : Table) (n : ℕ)
    → ◌≡◌ {A = Option ℕ} (some (suc (s now k))) (some n)
    → t + 1000000 ≤ now + window
    → bumped k window now s t k ≡ n
bumped-kept k window now t s n h within = ground (arith, str_eq_iff k k)

value-eq : (m n : ℕ) → ◌≡◌ {A = Option ℕ} (some m) (some n) → n ≡ m
value-eq m n h = cc h

abbrev counters : Counters Table
counters = record {
  count = λ s t k. s t k;
  incr_expire = λ k window now s. (some (suc (s now k)), bumped k (window / second * second) now s);
  incr_value = λ k window now s n h. value-eq (suc (s now k)) n h;
  incr_kept = λ k window now t s n h after within.
      bumped-kept k (window / second * second) now t s n h within;
}

abbrev idle : Table
idle t k = 6

abbrev verdicts : List Decision
verdicts =
    record { allowed = true; limit = 7; remaining = 0; reset_in = 3599000000000 }
    ∷ record { allowed = false; limit = 7; remaining = 0; reset_in = 3598000000000 }
    ∷ []

allow_all-permitted_example : permitted verdicts ≡ 1
unfolding allow_all allow decide find_rule rule window_start limit window_key format_nat
allow_all-permitted_example =
    allow_all-permitted counters default_rate_limits "user:7" "upload" (rule_of 5 (3600 * second) 2)
      zero_time 6 0 (1000000000 ∷ 2000000000 ∷ []) idle verdicts refl refl
      (omega arith, refl, omega arith, (omega arith, refl, omega arith, tt)) (λ t a b. refl) refl

run_steps-bounded_example :
    (run_steps 2
      (enters ∷ enters ∷ enters ∷ withdraws true ∷ leaves true ∷ enters ∷ [])
      no_requests).admitted
    ≤ 2
run_steps-bounded_example =
    run_steps-bounded 2 (enters ∷ enters ∷ enters ∷ withdraws true ∷ leaves true ∷ enters ∷ []) refl

-- A request that outlives the key leaves a counter below 0, and two more are let in where one is the
-- limit.
lapse_test :
    (run_steps 1 (enters ∷ lapses ∷ leaves true ∷ enters ∷ enters ∷ []) no_requests).admitted ≡ 2
unfolding run_steps step incr decr
lapse_test = refl

-- What is stored of a video that was watched to its end before.
abbrev watched : WatchHistory
watched = record {
  user_id = 7;
  video_id = 3;
  watched_at = 1;
  watch_duration = pos 90;
  completed = true;
  last_position = pos 90;
}

save_progress-Extends_example :
    (new : WatchHistory) × ((save_progress 7 3 (pos 12) (pos 90) false 5 none (some watched)).1
      ≡ some new)
    × (new.last_position ≡ pos 12)
    × (lt_int new.watch_duration (pos 12) ≡ false)
    × (lt_int (pos 12) (pos 0) ≡ false)
    × ((lt_int (pos 0) (pos 90) && lt_int (pos 90) (pos 12)) ≡ false)
    × Extends (some watched) new
unfolding save_progress entry_of to_int32 validate
save_progress-Extends_example =
    save_progress-Extends 7 3 (pos 12) (pos 90) false 5 none (some watched) refl
