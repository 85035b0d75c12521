-- ===== src/Moderation.antt =====
-- internal/service/moderation_service.go: reports and bans, over the tables of the module Postgres. The
-- removal of a deleted video's files and the audit log, whose errors are dropped, are left out. `now`
-- stands for the readings of the clock in one call.
pub mod Reviews
pub mod Filing
pub mod Duplicates
pub mod Bans
use video_streaming_service.Common.{
  ℕ, ◌+◌, Bool, true, false, Option, none, some, String, str_eq, Result, ok, err, other,
  invalid_input, missing_report_target, duplicate_report, ltb, if◌then◌else◌,
}
use video_streaming_service.Domain.User.{Uuid, Time}
use video_streaming_service.Domain.Report.{ContentReport, validate, resolve, dismiss}
use video_streaming_service.Postgres.{Action}
use video_streaming_service.Postgres.Calls.{◌>>=◌, ◌>>◌, pure, raise, give}
use video_streaming_service.Postgres.Videos.{get_by_id, delete}
use video_streaming_service.Postgres.Moderated as Rows

-- The duplicate check, which a report without a video skips.
unfoldable pub check_duplicate : ContentReport → Option Uuid → Action Unit
check_duplicate report none = pure tt
check_duplicate report (some video) = do
  existing ← Rows.count_by_reporter_and_video report.reporter_id video
  (if ltb 0 existing then raise duplicate_report else pure tt)

-- `CreateReport` up to the insertion. Its two statements run in no transaction, and no constraint of the table
-- repeats the check, so other requests may come between them: see the module Duplicates.
unfoldable pub admit : ContentReport → Action Unit
unfolding check_duplicate
admit report = do give (validate report); check_duplicate report report.video_id

-- The call that no other one interrupts.
unfoldable pub create_report : ContentReport → Action Unit
unfolding admit
create_report report = do admit report; Rows.create_row report

unfoldable pub owner_of : Option Uuid → Action Uuid
owner_of none = raise invalid_input
owner_of (some owner) = pure owner

-- Whom "ban_user" is about.
unfoldable pub ban_target : Option Uuid → Option Uuid → Action Uuid
unfolding owner_of
ban_target (some user) video = pure user
ban_target none (some video) = do row ← get_by_id video; owner_of row.user_id
ban_target none none = raise missing_report_target

unfoldable pub delete_reported : Time → Option Uuid → Action Unit
delete_reported now none = pure tt
delete_reported now (some video) = do get_by_id video; delete now video

-- The `switch` of `ReviewReport`: the report as it is to be stored.
unfoldable pub act : Time → Uuid → String → String → ContentReport → Action ContentReport
unfolding delete_reported ban_target
act now moderator action notes report =
    if str_eq action "delete_video"
    then (do delete_reported now report.video_id; pure (resolve now moderator action report))
    else if str_eq action "ban_user"
    then (do
      target ← ban_target report.user_id report.video_id
      Rows.ban_user now target notes none
      pure (resolve now moderator action report))
    else if str_eq action "warn_user"
    then pure (resolve now moderator action report)
    else if str_eq action "dismiss"
    then pure (dismiss now moderator report)
    else raise (other "invalid action")

-- From the report on.
unfoldable pub conclude : Time → Uuid → String → String → ContentReport → Action Unit
unfolding act
conclude now moderator action notes report = do
  reviewed ← act now moderator action notes report
  Rows.update_report reviewed

unfoldable pub review_report : Time → Uuid → Uuid → String → String → Action Unit
unfolding conclude
review_report now id moderator action notes = do
  report ← Rows.get_report id
  conclude now moderator action notes report

abbrev pub expiry_after : Time → Option ℕ → Option Time
expiry_after now none = none
expiry_after now (some duration) = some (now + duration)

-- `ModerationService.BanUser` and `UnbanUser`
unfoldable pub ban_user : Time → Uuid → String → Option ℕ → Action Unit
ban_user now user reason duration = Rows.ban_user now user reason (expiry_after now duration)

unfoldable pub unban_user : Time → Uuid → Action Unit
unban_user now user = Rows.unban_user now user
