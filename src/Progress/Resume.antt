-- ===== src/Progress/Resume.antt =====
-- What a report of progress leaves (internal/service/view_tracker.go).
use video_streaming_service.Common.{
  ℤ, pos, negsuc, lt_int, ◌≡◌, refl, Bool, true, false, ◌&&◌, Option, none, some, ok, Error, arith,
  Result-cases, inl, inr,
}
use video_streaming_service.Domain.User.{Uuid, Time}
use video_streaming_service.Progress.{
  WatchHistory, to_int32, entry_of, greatest, upsert, save_progress,
}

-- What a row promises over the one before it, if there was one.
abbrev pub Extends : Option WatchHistory → WatchHistory → Type 0
Extends none new = Unit
Extends (some old) new =
    (lt_int new.watch_duration old.watch_duration ≡ false)
    × (old.completed ≡ true → new.completed ≡ true)

to_int32_small :
    (n : ℤ) → lt_int n (pos 0) ≡ false → lt_int (pos 2147483647) n ≡ false → to_int32 n ≡ n
unfolding to_int32
to_int32_small (pos n) low high = ground arith
to_int32_small (negsuc n) low high = cc low

entry_of-ok :
    (user video : Uuid) (position duration : ℤ) (completed : Bool) (now : Time)
    (entry : WatchHistory)
    → entry_of user video position duration completed now ≡ ok entry
    → (entry.last_position ≡ position)
      × (entry.watch_duration ≡ position)
      × (lt_int position (pos 0) ≡ false)
      × ((lt_int (pos 0) duration && lt_int duration position) ≡ false)
unfolding entry_of
entry_of-ok user video position duration completed now entry h =
    ground (arith, to_int32_small position)

greatest-le : (a b : ℤ) → (lt_int (greatest a b) a ≡ false) × (lt_int (greatest a b) b ≡ false)
greatest-le a b = ground arith

upsert-Extends :
    (entry : WatchHistory) (row : Option WatchHistory)
    → Extends row (upsert entry row)
      × ((upsert entry row).last_position ≡ entry.last_position)
      × (lt_int (upsert entry row).watch_duration entry.watch_duration ≡ false)
      × (entry.completed ≡ true → (upsert entry row).completed ≡ true)
unfolding upsert
upsert-Extends entry none = (tt, refl, ground arith, λ h. h)
upsert-Extends entry (some old) =
    let (over_old, over_entry) = greatest-le old.watch_duration entry.watch_duration in
    ((over_old, λ h. ground (arith, h)), refl, over_entry, λ h. ground (arith, h))

-- A report of progress that is accepted has a position that is not negative and not past a duration
-- that is positive. It stores the reported position as it is, without wrapping
-- around; the time watched is at least that and at least what it was, and a video that was completed
-- stays so.
pub save_progress-Extends :
    (user video : Uuid) (position duration : ℤ) (completed : Bool) (now : Time)
    (refusal : Option Error) (row : Option WatchHistory)
    → (save_progress user video position duration completed now refusal row).0 ≡ ok tt
    → (new : WatchHistory) × ((save_progress user video position duration completed now refusal
          row).1
        ≡ some new)
      × (new.last_position ≡ position)
      × (lt_int new.watch_duration position ≡ false)
      × (lt_int position (pos 0) ≡ false)
      × ((lt_int (pos 0) duration && lt_int duration position) ≡ false)
      × Extends row new
unfolding save_progress
save_progress-Extends user video position duration completed now refusal row h =
    elim (Result-cases (entry_of user video position duration completed now)) [
      | inr (e, refused) ↦ absurd (ground (arith, refused))
      | inl (entry, made) ↦
          let (at, watched, low, high) =
            entry_of-ok user video position duration completed now entry made in
          let (extends, last, over, _) = upsert-Extends entry row in
          (
            upsert entry row,
            ground (arith, made),
            cc (last, at),
            ground (over, watched, arith),
            low,
            high,
            extends,
          )
    ]
