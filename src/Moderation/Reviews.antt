-- ===== src/Moderation/Reviews.antt =====
-- What a review does (internal/service/moderation_service.go).
use video_streaming_service.Common.{
  ◌≡◌, ◌⊎◌, Bool, false, List, none, some, ok, err, arith, any, database_error,
}
use video_streaming_service.Domain.User.{Uuid}
use video_streaming_service.Domain.Video.{is_id}
use video_streaming_service.Domain.Report.{ContentReport}
use video_streaming_service.Postgres.{World}
use video_streaming_service.Postgres.Calls.{round_trip}
use video_streaming_service.Postgres.Moderated.{find_report, get_report}

-- Whether some report names a video.
abbrev pub names_video : Uuid → List ContentReport → Bool
names_video video rs = any (λ r. is_id r.video_id video) rs

-- The video and every report on it are gone.
abbrev pub IsForgotten : Uuid → World → Type 0
IsForgotten video w = (w.videos video ≡ none) × (names_video video w.reports ≡ false)

-- A report is read, or the database refuses; neither writes.
pub get_report-cases :
    (id : Uuid) (w : World) (r : ContentReport)
    → find_report id w.reports ≡ some r
    → ((get_report id w).0 ≡ err database_error) ⊎ ((get_report id w).0 ≡ ok r)
unfolding get_report round_trip
get_report-cases id w r found = ground (arith, found)
