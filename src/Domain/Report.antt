-- ===== src/Domain/Report.antt =====
-- internal/domain/report.go
use video_streaming_service.Common.{
  Bool, not, ◌&&◌, List, [], ◌∷◌, Option, none, some, String, str_eq, any, Result, Done, ok, err,
  invalid_report_type, missing_report_target, missing_report_reason, ◌>>◌, fail_if, if◌then◌else◌,
  ◌≡◌, arith, Error,
}
use video_streaming_service.Domain.User.{Uuid, Time, is_some}

-- `type ReportType string`: any string, and eight constants.
abbrev pub report_types : List String
report_types =
    "spam" ∷ "harassment" ∷ "hate_speech" ∷ "violence" ∷ "copyright" ∷ "nudity" ∷ "misinformation"
    ∷ "other" ∷ []

unfoldable pub is_valid_type : String → Bool
is_valid_type t = any (λ u. str_eq u t) report_types

pub data ReportStatus : Type 0 where
  pending reviewing resolved dismissed : ReportStatus

pub record ContentReport : Type 0 where
  pub id : Uuid
  pub video_id : Option Uuid
  pub user_id : Option Uuid
  pub comment_id : Option Uuid
  pub reporter_id : Uuid
  pub report_type : String
  pub reason : String
  pub description : String
  pub status : ReportStatus
  pub reviewed_by : Option Uuid
  pub reviewed_at : Option Time
  pub action : Option String
  pub created_at : Time
  pub updated_at : Time

unfoldable pub validate : ContentReport → Done
validate r = do
  fail_if (not (is_valid_type r.report_type)) invalid_report_type
  fail_if (not (is_some r.video_id) && (not (is_some r.user_id) && not (is_some r.comment_id)))
      missing_report_target
  fail_if (str_eq r.reason "") missing_report_reason
  ok tt

-- `NewContentReport`; `fresh` is uuid.New(), `created` and `updated` the two readings of the clock.
unfoldable pub new_content_report :
    Uuid → Time → Time → Uuid → String → String → String → Result ContentReport
new_content_report fresh created updated reporter report_type reason description =
    let report : ContentReport = record {
      id = fresh;
      video_id = none;
      user_id = none;
      comment_id = none;
      reporter_id = reporter;
      report_type = report_type;
      reason = reason;
      description = description;
      status = pending;
      reviewed_by = none;
      reviewed_at = none;
      action = none;
      created_at = created;
      updated_at = updated;
    } in
    do validate report; ok report

unfoldable pub mark_as_reviewing : Time → Uuid → ContentReport → ContentReport
mark_as_reviewing now moderator r = record r {
  status = reviewing;
  reviewed_by = some moderator;
  updated_at = now;
}

unfoldable pub resolve : Time → Uuid → String → ContentReport → ContentReport
resolve now moderator action r = record r {
  status = resolved;
  reviewed_by = some moderator;
  reviewed_at = some now;
  action = some action;
  updated_at = now;
}

unfoldable pub dismiss : Time → Uuid → ContentReport → ContentReport
dismiss now moderator r = record r {
  status = dismissed;
  reviewed_by = some moderator;
  reviewed_at = some now;
  updated_at = now;
}

-- The constructor never succeeds: it names no target, and the validation asks for one.
pub new_content_report-err :
    (fresh : Uuid) (created updated : Time) (reporter : Uuid)
    (report_type reason description : String)
    → (e : Error) × (new_content_report fresh created updated reporter report_type reason
          description
        ≡ err e)
unfolding new_content_report validate
new_content_report-err fresh created updated reporter report_type reason description =
    (if is_valid_type report_type then missing_report_target else invalid_report_type, ground arith)
