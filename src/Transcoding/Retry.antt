-- ===== src/Transcoding/Retry.antt =====
-- A video is processed once (internal/service/transcoding_service.go).
use video_streaming_service.Common.{◌≡◌, ◌⊎◌, List, [], ◌∷◌, Bool, Result, some, String}
use video_streaming_service.Domain.User.{Uuid, Time}
use video_streaming_service.Domain.Video.{Video, processing, ready}
use video_streaming_service.Postgres.{World}
use video_streaming_service.Transcoding.{Tools, process_video}

-- A later delivery of a task: the tools and the clock of its run, and the outcomes of its database calls.
pub record Delivery : Type 0 where
  pub tools : Tools
  pub now : Time
  pub faults : List Bool

unfoldable pub deliver : Uuid → String → Delivery → World → Result (Unit {0}) × World
deliver id video_id d w = process_video d.tools d.now id video_id (record w { faults = d.faults })

unfoldable pub deliver_all : Uuid → String → List Delivery → World → World
unfolding deliver
deliver_all id video_id [] w = w
deliver_all id video_id (d ∷ ds) w = deliver_all id video_id ds (deliver id video_id d w).1

-- The row is being processed, or has been.
abbrev pub IsTaken : Uuid → World → Type 0
IsTaken id w = (v : Video) × (w.videos id ≡ some v) × ((v.status ≡ processing) ⊎ (v.status ≡ ready))
