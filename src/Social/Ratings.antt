-- ===== src/Social/Ratings.antt =====
-- The ratings of videos (internal/service/social_service.go: SetLike, RemoveLike, GetLike).
use video_streaming_service.Common.{Bool}
use video_streaming_service.Domain.User.{Uuid, Time}
use video_streaming_service.Domain.Social.{Like, validate_like}
use video_streaming_service.Postgres.{Action}
use video_streaming_service.Postgres.Calls.{◌>>◌, give}
use video_streaming_service.Postgres.Videos.{get_by_id}
use video_streaming_service.Postgres.Likes as Rows

unfoldable pub set_like : Time → Uuid → Uuid → Uuid → Bool → Action Like
set_like now fresh user video is_like = do
  get_by_id video
  let like : Like = record {
    id = fresh;
    user_id = user;
    video_id = video;
    is_like = is_like;
    created_at = now;
  }
  give (validate_like like)
  Rows.upsert_like now like

unfoldable pub remove_like : Time → Uuid → Uuid → Action Unit
remove_like now user video = Rows.delete_like now user video

unfoldable pub get_like : Uuid → Uuid → Action Like
get_like user video = Rows.get_like user video
