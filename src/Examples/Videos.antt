-- ===== src/Examples/Videos.antt =====
-- Videos and their processing at work (internal/domain/video.go, internal/service/transcoding_service.go).
use video_streaming_service.Common.{
  ◌≡◌, refl, pos, true, false, [], ◌∷◌, Option, some, none, str_eq, if◌then◌else◌, ◌==◌,
}
use video_streaming_service.Domain.User.{Uuid}
use video_streaming_service.Domain.Video.{Video, processing, draft_video}
use video_streaming_service.Postgres.{World}
use video_streaming_service.Examples.Fixtures.{unused}
use video_streaming_service.Postgres.Calls.{◌>>=◌, pure, raise, attempt, round_trip}
use video_streaming_service.Postgres.Videos.{
  set_row, exec, get_by_id, update_status, update_progress, update_duration, update_resolution,
  update_hls_info, mark_as_ready,
}
use video_streaming_service.Transcoding.{
  VideoMetadata, Tools, quality_specs, thumbnail_of, transcode_all, hls_of, publish_hls, finish,
  assemble, encode, probe_and_encode, process_video,
}
use video_streaming_service.Transcoding.Frame.{process_video-other_rows}
use video_streaming_service.Transcoding.Completion.{renditions, IsReady, process_video-Processed}
use video_streaming_service.Transcoding.Settling.{IsSettled, process_video-IsSettled}
use video_streaming_service.Transcoding.Retry.{Delivery}

abbrev clip : Video
unfolding draft_video
clip = draft_video 3 1000 "Clip" "" "clip.mp4" "raw/3.mp4" "video/mp4" (pos 2048)

-- A source of 720 lines, whose 480p encoding fails.
abbrev tools : Tools
tools = record {
  metadata = some (record { duration = 60; width = 1280; height = 720 });
  makes_dir = true;
  transcodes = λ q. if str_eq q "480p" then false else true;
  converts = λ q. true;
  writes_master = true;
  thumbnail = some "t.jpg";
}

-- The table holds the clip, and a second video that is being processed; the database refuses the
-- third call.
abbrev busy : Video
busy = record clip { id = 4; status = processing }

abbrev rows : Uuid → Option Video
rows j = if j == 3 then some clip else if j == 4 then some busy else none

abbrev world : World
world = record {
  videos = rows;
  users = λ j. none;
  reports = [];
  social = unused;
  faults = false ∷ false ∷ true ∷ [];
}

process_video-other_rows_example : (process_video tools 5000 3 "three" world).1.videos 4 ≡ some busy
process_video-other_rows_example = process_video-other_rows tools 5000 3 4 "three" world (λ e. cc e)

process_video-Processed_example :
    (m : VideoMetadata) × (tools.metadata ≡ some m)
    × ((v : Video) × ((process_video tools 5000 3 "three" world).1.videos 3 ≡ some v)
        × IsReady
            (renditions tools m.height quality_specs)
            (thumbnail_of tools 5000 3 tools.thumbnail)
            5000
            v)
unfolding process_video probe_and_encode encode assemble finish publish_hls hls_of transcode_all
    ◌>>=◌ attempt pure raise round_trip get_by_id exec set_row update_status update_progress
    update_duration update_resolution update_hls_info mark_as_ready draft_video
process_video-Processed_example = process_video-Processed tools 5000 3 "three" world refl

abbrev again : Delivery
again = record { tools = tools; now = 9000; faults = false ∷ true ∷ [] }

process_video-IsSettled_example :
    IsSettled 3 (process_video tools 5000 3 "three" (record world { faults = [] }))
unfolding draft_video
process_video-IsSettled_example =
    process_video-IsSettled tools 5000 3 "three" (record world { faults = [] }) clip refl refl refl
