-- ===== src/Examples/Reports.antt =====
-- Reports and bans at work (internal/service/moderation_service.go).
use video_streaming_service.Common.{
  ◌≡◌, ◌≤◌, refl, pos, false, List, [], ◌∷◌, Option, some, none, err, Error, arith, ltb,
  if◌then◌else◌, ◌==◌,
}
use video_streaming_service.Domain.User.{
  User, Uuid, Time, draft_user, is_deleted, is_currently_banned,
}
use video_streaming_service.Domain.Video.{Video, draft_video}
use video_streaming_service.Domain.Report.{
  ContentReport, pending, new_content_report, new_content_report-err, resolve, validate,
  is_valid_type,
}
use video_streaming_service.Postgres.{World}
use video_streaming_service.Postgres.Calls.{◌>>=◌, pure, raise, give, round_trip}
use video_streaming_service.Postgres.Moderated as Rows
use video_streaming_service.Moderation.{
  check_duplicate, admit, ban_target, act, conclude, review_report, ban_user,
}
use video_streaming_service.Moderation.Filing.{
  Step, checks, inserts, idle, checked, inserted, step, run_schedule, most_at_once,
}
use video_streaming_service.Moderation.Duplicates.{run_schedule-AtMost}
use video_streaming_service.Moderation.Bans.{IsBanned, review_report-IsBanned, ban_user-lasts}
use video_streaming_service.Examples.Fixtures.{ann, unused}

abbrev clip : Video
unfolding draft_video
clip = draft_video 3 1000 "Clip" "" "clip.mp4" "raw/3.mp4" "video/mp4" (pos 2048)

-- A report by ann on a video, and one on ann.
abbrev report : Uuid → Option Uuid → Option Uuid → ContentReport
report id video user = record {
  id = id;
  video_id = video;
  user_id = user;
  comment_id = none;
  reporter_id = 7;
  report_type = "spam";
  reason = "ads";
  description = "";
  status = pending;
  reviewed_by = none;
  reviewed_at = none;
  action = none;
  created_at = 1;
  updated_at = 1;
}

abbrev world : World
world = record {
  videos = λ j. if j == 3 then some clip else none;
  users = λ j. if j == 7 then some ann else none;
  reports = report 20 (some 3) none ∷ report 21 none (some 7) ∷ [];
  social = unused;
  faults = false ∷ [];
}

new_content_report-err_example : (e : Error) × (new_content_report 22 1 1 7 "spam" "ads" "" ≡ err e)
new_content_report-err_example = new_content_report-err 22 1 1 7 "spam" "ads" ""

abbrev untouched : World
untouched = record world { reports = []; faults = [] }

abbrev first : ContentReport
first = report 23 (some 3) none

abbrev second : ContentReport
second = report 24 (some 3) none

-- Two requests of one reporter on one video, one after the other and at the same time.
abbrev in_turn : List Step
in_turn = checks first ∷ inserts 0 ∷ checks second ∷ inserts 0 ∷ []

abbrev at_once : List Step
at_once = checks first ∷ checks second ∷ inserts 1 ∷ inserts 0 ∷ []

-- The second of two requests in turn is refused; of two at once both are stored.
test_schedules :
    ((run_schedule in_turn (idle untouched)).world.reports ≡ first ∷ [])
    × (Rows.count_reports 7 3 (run_schedule at_once (idle untouched)).world.reports ≡ 2)
unfolding run_schedule step checked inserted admit check_duplicate give ◌>>=◌ pure raise round_trip
    Rows.count_by_reporter_and_video Rows.count_reports Rows.create_row Rows.find_report draft_video
    validate is_valid_type
test_schedules = (refl, refl)

run_schedule-AtMost_example :
    Rows.count_reports 7 3 (run_schedule in_turn (idle untouched)).world.reports ≤ 1
unfolding run_schedule most_at_once step checked inserted admit check_duplicate give ◌>>=◌ pure
    raise round_trip Rows.count_by_reporter_and_video Rows.count_reports Rows.create_row
    Rows.find_report draft_video validate is_valid_type
run_schedule-AtMost_example =
    run_schedule-AtMost 1 7 3 in_turn untouched (ground arith) (ground arith)

review_report-IsBanned_example : IsBanned 7 (review_report 50 21 7 "ban_user" "rude" world).1
unfolding review_report conclude act ban_target ◌>>=◌ pure round_trip Rows.get_report
    Rows.find_report Rows.update_report Rows.rewrite_report Rows.ban_user Rows.exec_user
    Rows.set_user is_deleted draft_user resolve
review_report-IsBanned_example =
    review_report-IsBanned 50 21 7 "rude" world (report 21 none (some 7)) 7 refl refl refl

ban_user-lasts_example :
    (u : User) × ((ban_user 50 7 "rude" (some 100) world).1.users 7 ≡ some u)
    × ((t : Time) → is_currently_banned t u ≡ ltb t 150)
unfolding ban_user round_trip Rows.ban_user Rows.exec_user Rows.set_user is_deleted draft_user
ban_user-lasts_example = ban_user-lasts 50 7 "rude" 100 world refl
