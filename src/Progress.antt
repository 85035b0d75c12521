-- ===== src/Progress.antt =====
-- SaveProgress of internal/service/view_tracker.go, with WatchHistory of internal/domain/social.go and
-- UpsertWatchHistory of internal/repository/postgres/analytics_repository.go, for one user and one
-- video. The key of a row is left out.
pub mod Resume
use video_streaming_service.Common.{
  ℕ, ℤ, pos, negsuc, lt_int, ◌-◌, ◌%◌, ◌^◌, Bool, true, false, ◌&&◌, ◌||◌, Option, none, some,
  Result, Done, ok, err, Error, invalid_input, invalid_progress, ltb, ◌==◌, ◌>>=◌, ◌>>◌, fail_if,
  if◌then◌else◌,
}
use video_streaming_service.Domain.User.{Uuid, Time}

pub record WatchHistory : Type 0 where
  pub user_id : Uuid
  pub video_id : Uuid
  pub watched_at : Time
  pub watch_duration : ℤ
  pub completed : Bool
  pub last_position : ℤ

unfoldable pub validate : WatchHistory → Done
validate h = do
  fail_if (h.user_id == 0) invalid_input
  fail_if (h.video_id == 0) invalid_input
  fail_if (lt_int h.watch_duration (pos 0)) invalid_input
  fail_if (lt_int h.last_position (pos 0)) invalid_input
  ok tt

-- `int32(_)`, which wraps around
unfoldable pub to_int32 : ℤ → ℤ
to_int32 (pos n) = let m = n % 2 ^ 32 in if ltb m (2 ^ 31) then pos m else negsuc (2 ^ 32 - 1 - m)
to_int32 (negsuc n) =
    let m = n % 2 ^ 32 in if ltb m (2 ^ 31) then negsuc m else pos (2 ^ 32 - 1 - m)

-- The entry that `SaveProgress` sends; `now` is the database's NOW().
unfoldable pub entry_of : Uuid → Uuid → ℤ → ℤ → Bool → Time → Result WatchHistory
entry_of user video position duration completed now = do
  fail_if
      (lt_int position (pos 0) || (lt_int duration (pos 0) || lt_int (pos (2 ^ 31 - 1)) position))
      invalid_progress
  fail_if (lt_int (pos 0) duration && lt_int duration position) invalid_progress
  let entry : WatchHistory = record {
    user_id = user;
    video_id = video;
    watched_at = now;
    watch_duration = to_int32 position;
    completed = completed;
    last_position = to_int32 position;
  }
  validate entry
  ok entry

abbrev pub greatest : ℤ → ℤ → ℤ
greatest a b = if lt_int a b then b else a

-- The statement's row, new or on a conflict.
unfoldable pub upsert : WatchHistory → Option WatchHistory → WatchHistory
upsert entry none = entry
upsert entry (some old) = record old {
  watched_at = entry.watched_at;
  watch_duration = greatest old.watch_duration entry.watch_duration;
  completed = old.completed || entry.completed;
  last_position = entry.last_position;
}

-- `refusal` is the error of the statement, `none` if it is carried out.
unfoldable pub save_progress :
    Uuid
    → Uuid
    → ℤ
    → ℤ
    → Bool
    → Time
    → Option Error
    → Option WatchHistory
    → Done × Option WatchHistory
save_progress user video position duration completed now refusal row =
    elim (entry_of user video position duration completed now) [
      | err e ↦ (err e, row)
      | ok entry ↦ elim refusal [ none ↦ (ok tt, some (upsert entry row)) | some e ↦ (err e, row) ]
    ]
