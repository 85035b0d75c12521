-- ===== src/Transcoding.antt =====
-- internal/service/transcoding_service.go: the pipeline of one video. The runs of ffmpeg and ffprobe
-- and the making of directories are the environment's outcomes (`Tools`); the database is that of
-- the module Postgres.
pub mod Frame
pub mod Completion
pub mod Retry
pub mod Settling
use video_streaming_service.Common.{
  ℕ, zero, suc, ℤ, pos, ◌*◌, ◌/◌, Bool, true, false, not, ◌||◌, List, [], ◌∷◌, ◌++◌, Option, none,
  some, String, Result, Done, ok, err, Error, other, ltb, if◌then◌else◌,
}
use video_streaming_service.Common.Text.{concat}
use video_streaming_service.Common.Decimal.{format_nat}
use video_streaming_service.Domain.User.{Uuid, Time}
use video_streaming_service.Domain.Video.{
  Video, VideoStatus, uploading, processing, failed, status_eq,
}
use video_streaming_service.Postgres.{World, Action}
use video_streaming_service.Postgres.Calls.{◌>>=◌, ◌>>◌, pure, raise, give, attempt}
use video_streaming_service.Postgres.Videos.{
  get_by_id, update_status, update_progress, update_duration, update_resolution, update_hls_info,
  mark_as_ready, mark_as_failed,
}

-- The rungs of the ladder, `qualities` and the keys of `qualitySpecs`, with what the pipeline reads
-- of a spec.
pub record QualitySpec : Type 0 where
  pub name : String
  pub width : ℕ
  pub height : ℕ
  pub bitrate : String
  pub max_rate : String
  pub buf_size : String
  pub fps : ℕ

abbrev pub spec_360p : QualitySpec
spec_360p = record {
  name = "360p";
  width = 640;
  height = 360;
  bitrate = "800k";
  max_rate = "900k";
  buf_size = "1800k";
  fps = 30;
}

abbrev pub spec_480p : QualitySpec
spec_480p = record {
  name = "480p";
  width = 854;
  height = 480;
  bitrate = "1400k";
  max_rate = "1500k";
  buf_size = "3000k";
  fps = 30;
}

abbrev pub spec_720p : QualitySpec
spec_720p = record {
  name = "720p";
  width = 1280;
  height = 720;
  bitrate = "2800k";
  max_rate = "3000k";
  buf_size = "6000k";
  fps = 30;
}

abbrev pub spec_1080p : QualitySpec
spec_1080p = record {
  name = "1080p";
  width = 1920;
  height = 1080;
  bitrate = "5000k";
  max_rate = "5500k";
  buf_size = "11000k";
  fps = 60;
}

abbrev pub quality_specs : List QualitySpec
quality_specs = spec_360p ∷ spec_480p ∷ spec_720p ∷ spec_1080p ∷ []

-- What ExtractMetadata returns of a file, the duration in whole seconds.
pub record VideoMetadata : Type 0 where
  pub duration : ℕ
  pub width : ℕ
  pub height : ℕ

-- How the external steps turn out: the probe, the output directory, the encoding of a rung, its
-- conversion to HLS, the writing of the master playlist, and the thumbnail with its path.
pub record Tools : Type 0 where
  pub metadata : Option VideoMetadata
  pub makes_dir : Bool
  pub transcodes : String → Bool
  pub converts : String → Bool
  pub writes_master : Bool
  pub thumbnail : Option String

-- `int(float64(i) / float64(totalSteps) * 100)`, with four rungs and two more steps
abbrev pub progress_at : ℕ → ℤ
progress_at i = pos (i * 100 / 6)

abbrev pub can_start : VideoStatus → Bool
can_start uploading = true
can_start failed = true
can_start _ = false

module _ (tools : Tools) (now : Time) (id : Uuid) where
  -- The loop over the rungs: `i` is the index, `done` what has been transcoded.
  unfoldable pub transcode_all : ℕ → ℕ → List String → List QualitySpec → Action (List String)
  transcode_all height i done [] = pure done
  transcode_all height i done (spec ∷ specs) =
      let skip = transcode_all height (suc i) done specs in
      let kept = transcode_all height (suc i) (done ++ spec.name ∷ []) specs in
      if ltb height spec.height then skip else do
        attempt (update_progress now id (progress_at i))
        (if tools.transcodes spec.name then kept else skip)

  -- The rungs that become HLS.
  unfoldable pub hls_of : List String → List String
  hls_of [] = []
  hls_of (q ∷ qs) = let rest = hls_of qs in if tools.converts q then q ∷ rest else rest

  -- `fmt.Sprintf("transcoded/%s/hls/master.m3u8", videoID)`
  unfoldable pub master_key : String → String
  master_key video_id = concat "transcoded/" (concat video_id "/hls/master.m3u8")

  unfoldable pub publish_hls : String → List String → Action Unit
  unfolding master_key
  publish_hls video_id [] = pure tt
  publish_hls video_id (q ∷ qs) =
      if tools.writes_master
      then attempt (update_hls_info now id (master_key video_id) true)
      else pure tt

  abbrev pub thumbnail_of : Option String → String
  thumbnail_of none = ""
  thumbnail_of (some path) = path

  unfoldable pub finish : List String → Action Unit
  finish transcoded = do
    mark_as_ready now id transcoded (thumbnail_of tools.thumbnail)
    attempt (update_progress now id (pos 100))

  -- From the check that something was transcoded.
  unfoldable pub assemble : String → List String → Action Unit
  unfolding hls_of publish_hls finish
  assemble video_id [] = do
    attempt (mark_as_failed now id)
    raise (other "failed to transcode any quality")
  assemble video_id (q ∷ qs) = do
    attempt (update_progress now id (progress_at 4))
    publish_hls video_id (hls_of (q ∷ qs))
    attempt (update_progress now id (progress_at 5))
    finish (q ∷ qs)

  resolution_of : VideoMetadata → String
  resolution_of m = concat (format_nat m.width) (concat "x" (format_nat m.height))

  unfoldable pub encode : String → VideoMetadata → Action Unit
  unfolding transcode_all assemble resolution_of
  encode video_id m = do
    attempt (update_duration now id (pos m.duration))
    attempt (update_resolution now id (resolution_of m))
    (if not tools.makes_dir
        then (do attempt (mark_as_failed now id); raise (other "failed to create output directory"))
        else do
          transcoded ← transcode_all m.height 0 [] quality_specs
          assemble video_id transcoded)

  unfoldable pub probe_and_encode : String → Option VideoMetadata → Action Unit
  unfolding encode
  probe_and_encode video_id none = do
    attempt (mark_as_failed now id)
    raise (other "failed to extract metadata")
  probe_and_encode video_id (some m) = encode video_id m

  -- `ProcessVideo` for an id that parses; `video_id` is its text.
  unfoldable pub process_video : String → Action Unit
  unfolding probe_and_encode
  process_video video_id = do
    video ← get_by_id id
    (if not (can_start video.status)
        then raise (other "video status is not uploading or failed")
        else do update_status now id processing; probe_and_encode video_id tools.metadata)
