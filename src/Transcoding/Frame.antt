-- ===== src/Transcoding/Frame.antt =====
-- Processing one video leaves the others alone (internal/service/transcoding_service.go).
use video_streaming_service.Common.{
  ℕ, suc, ◌≡◌, ◌≢◌, refl, List, [], ◌∷◌, ◌++◌, Option, none, some, String, Result, arith, ltb,
}
use video_streaming_service.Domain.User.{Uuid, Time}
use video_streaming_service.Domain.Video.{Video}
use video_streaming_service.Postgres.{World}
use video_streaming_service.Postgres.Calls.{
  Keeps, if-Keeps, bind-Keeps, attempt-Keeps, keeps_rules, round_trip,
}
use video_streaming_service.Postgres.Videos.{
  exec, get_by_id, set_row, update_status, update_progress, update_duration, update_resolution,
  update_hls_info, mark_as_ready, mark_as_failed,
}
use video_streaming_service.Transcoding.{
  Tools, progress_at, VideoMetadata, QualitySpec, transcode_all, publish_hls, finish, assemble,
  encode, probe_and_encode, process_video,
}

-- The row of `j` is `row`.
abbrev HasRow : Uuid → Option Video → World → Type 0
HasRow j row w = w.videos j ≡ row

module _ (j id : Uuid) (row : Option Video) (apart : j ≢ id) where
  exec-HasRow : (change : Video → Result (Option Video)) → Keeps (HasRow j row) (exec id change)
  unfolding exec round_trip set_row
  exec-HasRow change = record { run = λ w h. ground arith }

  get_by_id-HasRow : Keeps (HasRow j row) (get_by_id id)
  unfolding get_by_id round_trip
  get_by_id-HasRow = record { run = λ w h. ground arith }

  update_status-HasRow : (now : Time) (s : _) → Keeps (HasRow j row) (update_status now id s)
  unfolding update_status
  update_status-HasRow now s = exec-HasRow _

  update_progress-HasRow : (now : Time) (p : _) → Keeps (HasRow j row) (update_progress now id p)
  unfolding update_progress
  update_progress-HasRow now p = exec-HasRow _

  update_duration-HasRow : (now : Time) (d : _) → Keeps (HasRow j row) (update_duration now id d)
  unfolding update_duration
  update_duration-HasRow now d = exec-HasRow _

  update_resolution-HasRow :
      (now : Time) (r : _) → Keeps (HasRow j row) (update_resolution now id r)
  unfolding update_resolution
  update_resolution-HasRow now r = exec-HasRow _

  update_hls_info-HasRow :
      (now : Time) (k : _) (b : _) → Keeps (HasRow j row) (update_hls_info now id k b)
  unfolding update_hls_info
  update_hls_info-HasRow now k b = exec-HasRow _

  mark_as_ready-HasRow :
      (now : Time) (qs : _) (t : _) → Keeps (HasRow j row) (mark_as_ready now id qs t)
  unfolding mark_as_ready
  mark_as_ready-HasRow now qs t = exec-HasRow _

  mark_as_failed-HasRow : (now : Time) → Keeps (HasRow j row) (mark_as_failed now id)
  unfolding mark_as_failed
  mark_as_failed-HasRow now = exec-HasRow _

  ruleset row_rules = (
    keeps_rules, get_by_id-HasRow, update_status-HasRow, update_progress-HasRow,
    update_duration-HasRow, update_resolution-HasRow, update_hls_info-HasRow, mark_as_ready-HasRow,
    mark_as_failed-HasRow,
  )

  module _ (tools : Tools) (now : Time) where
    transcode_all-HasRow :
        (height i : ℕ) (done : List String) (specs : List QualitySpec)
        → Keeps (HasRow j row) (transcode_all tools now id height i done specs)
    unfolding transcode_all
    transcode_all-HasRow height i done [] = search row_rules
    transcode_all-HasRow height i done (spec ∷ specs) =
        let skip = transcode_all-HasRow height (suc i) done specs in
        let kept = transcode_all-HasRow height (suc i) (done ++ spec.name ∷ []) specs in
        if-Keeps (ltb height spec.height) _ _ skip (
          bind-Keeps _ _ (attempt-Keeps _ (update_progress-HasRow now (progress_at i)))
            (λ _. if-Keeps (tools.transcodes spec.name) _ _ kept skip))

    publish_hls-HasRow :
        (video_id : String) (qs : List String)
        → Keeps (HasRow j row) (publish_hls tools now id video_id qs)
    unfolding publish_hls
    publish_hls-HasRow video_id [] = search row_rules
    publish_hls-HasRow video_id (q ∷ qs) = search row_rules

    finish-HasRow : (qs : List String) → Keeps (HasRow j row) (finish tools now id qs)
    unfolding finish
    finish-HasRow qs = search row_rules

    assemble-HasRow :
        (video_id : String) (qs : List String)
        → Keeps (HasRow j row) (assemble tools now id video_id qs)
    unfolding assemble
    assemble-HasRow video_id [] = search row_rules
    assemble-HasRow video_id (q ∷ qs) = search (row_rules, publish_hls-HasRow, finish-HasRow)

    encode-HasRow :
        (video_id : String) (m : VideoMetadata)
        → Keeps (HasRow j row) (encode tools now id video_id m)
    unfolding encode
    encode-HasRow video_id m = search (row_rules, transcode_all-HasRow, assemble-HasRow) depth 7

    probe_and_encode-HasRow :
        (video_id : String) (m : Option VideoMetadata)
        → Keeps (HasRow j row) (probe_and_encode tools now id video_id m)
    unfolding probe_and_encode
    probe_and_encode-HasRow video_id none = search row_rules
    probe_and_encode-HasRow video_id (some m) = encode-HasRow video_id m

    process_video-HasRow :
        (video_id : String) → Keeps (HasRow j row) (process_video tools now id video_id)
    unfolding process_video
    process_video-HasRow video_id = search (row_rules, probe_and_encode-HasRow)

-- Processing a video, whatever fails on the way, leaves the row of every other video as it was.
pub process_video-other_rows :
    (tools : Tools) (now : Time) (id j : Uuid) (video_id : String) (w : World)
    → j ≢ id
    → (process_video tools now id video_id w).1.videos j ≡ w.videos j
process_video-other_rows tools now id j video_id w apart =
    (process_video-HasRow j id (w.videos j) apart tools now video_id).run w refl
