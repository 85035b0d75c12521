-- ===== src/Domain/Video/Lifecycle.antt =====
-- The life of a video (internal/domain/video.go): what holds after any sequence of its methods.
use video_streaming_service.Common.{ℤ, pos, lt_int, ◌≡◌, true, false, List, [], ◌∷◌, String, ok}
use video_streaming_service.Domain.User.{Time, is_some}
use video_streaming_service.Domain.Video.{
  Video, ready, validate, mark_as_processing, mark_as_ready, mark_as_failed, update_progress,
}

-- A call of one of the methods that change a video.
pub data Change : Type 0 where
  to_processing to_failed : Time → Change
  to_ready : Time → List String → String → Change
  to_progress : Time → ℤ → Change

pub apply : Change → Video → Video
apply (to_processing now) v = mark_as_processing now v
apply (to_failed now) v = mark_as_failed now v
apply (to_ready now qualities thumbnail) v = mark_as_ready now qualities thumbnail v
apply (to_progress now percent) v = (update_progress now percent v).1

pub apply_all : List Change → Video → Video
apply_all [] v = v
apply_all (c ∷ cs) v = apply_all cs (apply c v)

-- The progress is a percentage, a ready video has been processed and has a thumbnail, and the upload's
-- own data still pass the validation.
pub record IsSound (v : Video) : Type 0 where
  pub low : lt_int v.transcoding_progress (pos 0) ≡ false
  pub high : lt_int (pos 100) v.transcoding_progress ≡ false
  pub processed : v.status ≡ ready → is_some v.processed_at ≡ true
  pub thumbnail : v.status ≡ ready → is_some v.thumbnail_path ≡ true
  pub valid : validate v ≡ ok tt
