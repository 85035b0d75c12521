-- ===== src/Moderation/Duplicates.antt =====
-- How many reports one reporter may have on one video (internal/service/moderation_service.go).
use video_streaming_service.Common.{
  ℕ, zero, suc, ◌+◌, ◌≤◌, ◌≡◌, ◌⊎◌, inl, inr, refl, ◌&&◌, List, [], ◌∷◌, ◌++◌, Option, none, some,
  ok, arith, ◌==◌, if◌then◌else◌, Result-cases, Option-cases,
}
use video_streaming_service.Domain.User.{Uuid}
use video_streaming_service.Domain.Video.{is_id}
use video_streaming_service.Domain.Report.{ContentReport, validate}
use video_streaming_service.Postgres.{World}
use video_streaming_service.Postgres.Calls.{◌>>=◌, pure, raise, give, round_trip}
use video_streaming_service.Postgres.Moderated.{
  count_reports, count_by_reporter_and_video, create_row,
}
use video_streaming_service.Moderation.{check_duplicate, admit}
use video_streaming_service.Moderation.Filing.{
  Desk, Step, checks, inserts, idle, nth, without_nth, checked, inserted, step, run_schedule,
  most_at_once, greater-le,
}

abbrev on_pair : Uuid → Uuid → ContentReport → ℕ
on_pair reporter video r = if r.reporter_id == reporter && is_id r.video_id video then 1 else 0

count_reports-append :
    (reporter video : Uuid) (rs : List ContentReport) (r : ContentReport)
    → count_reports reporter video (rs ++ r ∷ [])
      ≡ count_reports reporter video rs + on_pair reporter video r
unfolding count_reports
count_reports-append reporter video [] r = ground arith
count_reports-append reporter video (q ∷ qs) r =
    ground (arith, count_reports-append reporter video qs r)

create_row-count :
    (reporter video : Uuid) (r : ContentReport) (w : World)
    → count_reports reporter video (create_row r w).1.reports
      ≤ count_reports reporter video w.reports + on_pair reporter video r
unfolding create_row round_trip
create_row-count reporter video r w = ground (
  arith,
  count_reports-append reporter video w.reports
      (record r { reviewed_by = none; reviewed_at = none; action = none }),
)

-- The check writes nothing.
check_duplicate-reports :
    (r : ContentReport) (video : Option Uuid) (w : World)
    → (check_duplicate r video w).1.reports ≡ w.reports
unfolding check_duplicate ◌>>=◌ count_by_reporter_and_video round_trip pure raise
check_duplicate-reports r none w = refl
check_duplicate-reports r (some v) w = ground arith

-- It lets only a first report of the reporter on the video through.
check_duplicate-ok :
    (r : ContentReport) (checked : Option Uuid) (video : Uuid) (w : World)
    → checked ≡ some video
    → (check_duplicate r checked w).0 ≡ ok tt
    → count_reports r.reporter_id video w.reports ≡ 0
unfolding check_duplicate ◌>>=◌ count_by_reporter_and_video round_trip pure raise
check_duplicate-ok r none video w here h = cc here
check_duplicate-ok r (some v) video w here h = ground arith

on_pair-le : (reporter video : Uuid) (r : ContentReport) → on_pair reporter video r ≤ 1
on_pair-le reporter video r = ground arith

-- A report counts for the pair of its own reporter and video alone.
on_pair_cases :
    (reporter video : Uuid) (r : ContentReport)
    → (on_pair reporter video r ≡ 0) ⊎ ((r.reporter_id ≡ reporter) × (r.video_id ≡ some video))
on_pair_cases reporter video r = ground arith

-- The part of a request before its insertion writes nothing.
admit-reports : (r : ContentReport) (w : World) → (admit r w).1.reports ≡ w.reports
unfolding admit ◌>>=◌ give
admit-reports r w = elim (Result-cases (validate r)) [
  | inr (e, invalid) ↦ ground (arith, invalid)
  | inl (_, valid) ↦ ground (arith, valid, check_duplicate-reports r r.video_id w)
]

-- A request gets past it only if the table has no report of its reporter on its video.
admit-ok :
    (r : ContentReport) (video : Uuid) (w : World)
    → r.video_id ≡ some video
    → (admit r w).0 ≡ ok tt
    → count_reports r.reporter_id video w.reports ≡ 0
unfolding admit ◌>>=◌ give
admit-ok r video w here h = elim (Result-cases (validate r)) [
  | inr (e, invalid) ↦ absurd (ground (arith, invalid))
  | inl (_, valid) ↦ check_duplicate-ok r r.video_id video w here (ground (arith, valid))
]

module _ (reporter video : Uuid) where
  rows : Desk → ℕ
  rows d = count_reports reporter video d.world.reports

  under_way : Desk → ℕ
  under_way d = count_reports reporter video d.waiting

  taken :
      (n : ℕ) (rs : List ContentReport) (r : ContentReport)
      → nth n rs ≡ some r
      → count_reports reporter video (without_nth n rs) + on_pair reporter video r
        ≡ count_reports reporter video rs
  unfolding count_reports
  taken n [] r h = absurd (ground (arith, h))
  taken zero (q ∷ qs) r h = ground (arith, h)
  taken (suc n) (q ∷ qs) r h = ground (arith, taken n qs r h)

  step-AtMost :
      (k : ℕ) (s : Step) (d : Desk)
      → rows d + under_way d ≤ k
      → under_way (step s d) ≤ k
      → rows (step s d) + under_way (step s d) ≤ k
  unfolding step checked inserted count_reports rows under_way
  step-AtMost k (checks r) d h now =
      let same = admit-reports r d.world in
      elim (Result-cases (admit r d.world).0) [
        | inr (e, refused) ↦ ground (arith, refused, same, h)
        | inl (_, passed) ↦ elim (on_pair_cases reporter video r) [
          | inl apart ↦ ground (arith, passed, same, h, apart)
          | inr (mine, here) ↦
              let none_yet = admit-ok r video d.world here passed in
              let zero_rows : count_reports reporter video (admit r d.world).1.reports ≡ 0 =
                cc (same, mine, none_yet) in
              ground (arith, passed, zero_rows, now)
        ]
      ]
  step-AtMost k (inserts n) d h now = elim (Option-cases (nth n d.waiting)) [
    | inl nobody ↦ ground (arith, nobody, h)
    | inr (r, there) ↦
        ground
          (arith, there, h, taken n d.waiting r there, create_row-count reporter video r d.world)
  ]

  run_schedule-Bounded :
      (k : ℕ) (ss : List Step) (d : Desk)
      → rows d + under_way d ≤ k
      → most_at_once reporter video ss d ≤ k
      → rows (run_schedule ss d) ≤ k
  unfolding run_schedule most_at_once rows under_way
  run_schedule-Bounded k [] d h most = omega (arith, h)
  run_schedule-Bounded k (s ∷ ss) d h most =
      let (first, others) =
        greater-le (under_way (step s d)) (most_at_once reporter video ss (step s d)) k most in
      run_schedule-Bounded k ss (step s d) (step-AtMost k s d h first) others

-- However requests to file reports interleave, of any reporters on any targets, and whatever the database
-- does: if the table has at most `k` reports of a reporter on a video, and at most `k` of that reporter's
-- requests on it stand between their check and their insertion at any time, the table ends with at most `k`.
-- With `k` = 1 this is the uniqueness that the check is for, of requests that do not overlap.
pub run_schedule-AtMost :
    (k : ℕ) (reporter video : Uuid) (ss : List Step) (w : World)
    → count_reports reporter video w.reports ≤ k
    → most_at_once reporter video ss (idle w) ≤ k
    → count_reports reporter video (run_schedule ss (idle w)).world.reports ≤ k
unfolding rows under_way count_reports
run_schedule-AtMost k reporter video ss w h most =
    run_schedule-Bounded reporter video k ss (idle w) (omega (arith, h)) most
