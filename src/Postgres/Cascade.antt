-- ===== src/Postgres/Cascade.antt =====
-- What the deletion of a video takes along in the social tables: the foreign keys with ON DELETE CASCADE
-- and the triggers of migrations/000009_add_social_features.up.sql. A reply stands on the video of its
-- parent (CreateComment sees to it) and a notification names the video of its comment, so that the
-- cascades through comments.parent_id and notifications.comment_id reach no further rows.
use video_streaming_service.Common.{pred_int, List, [], ◌∷◌, ◌==◌, if◌then◌else◌}
use video_streaming_service.Common.Rows.{without, Keys.write}
use video_streaming_service.Domain.User.{Uuid, Time}
use video_streaming_service.Domain.Video.{is_id}
use video_streaming_service.Domain.Social.{Playlist, PlaylistVideo}
use video_streaming_service.Postgres.{SocialTables}

-- `UPDATE playlists SET video_count = video_count - 1`, for each row of the video.
unfoldable pub unlist : Time → Uuid → List PlaylistVideo → List Playlist → List Playlist
unlist now video [] playlists = playlists
unlist now video (x ∷ xs) playlists =
    let rest = unlist now video xs playlists in
    if x.video_id == video
    then write (λ p. p.id) x.playlist_id
        (λ p. record p { video_count = pred_int p.video_count; updated_at = now }) rest
    else rest

unfoldable pub forget_video : Time → Uuid → SocialTables → SocialTables
unfolding unlist
forget_video now video t = record t {
  likes = without (λ l. l.video_id == video) t.likes;
  comments = without (λ c. c.video_id == video) t.comments;
  playlists = unlist now video t.playlist_videos t.playlists;
  playlist_videos = without (λ x. x.video_id == video) t.playlist_videos;
  watch_later = without (λ x. x.video_id == video) t.watch_later;
  notifications = without (λ n. is_id n.video_id video) t.notifications;
}
