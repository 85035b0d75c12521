-- ===== src/Social/Requests.antt =====
-- The requests that change what internal/service/social_service.go keeps, served one after the other.
use video_streaming_service.Common.{Bool, List, [], ◌∷◌, Option, String}
use video_streaming_service.Domain.User.{Uuid, Time}
use video_streaming_service.Postgres.{World, Action}
use video_streaming_service.Postgres.Calls.{◌>>◌, pure}
use video_streaming_service.Social.Ratings as Ratings
use video_streaming_service.Social.Comments as Comments
use video_streaming_service.Social.Subscriptions as Subscriptions
use video_streaming_service.Social.Playlists as Playlists
use video_streaming_service.Social.Notices as Notices

-- One call of SocialService, with the ids that it draws and the caller's id first.
pub data Request : Type 0 where
  set_like : Uuid → Uuid → Uuid → Bool → Request
  remove_like : Uuid → Uuid → Request
  create_comment : Uuid → Uuid → Uuid → Uuid → Option Uuid → String → Request
  update_comment : Uuid → Uuid → String → Request
  delete_comment : Uuid → Bool → Uuid → Request
  subscribe : Uuid → Uuid → Uuid → Uuid → Request
  unsubscribe : Uuid → Uuid → Request
  create_playlist : Uuid → Uuid → String → String → String → Request
  update_playlist : Uuid → Uuid → Option String → Option String → Option String → Request
  delete_playlist : Uuid → Uuid → Request
  add_playlist_video : Uuid → Uuid → Uuid → Uuid → Request
  remove_playlist_video : Uuid → Uuid → Uuid → Request
  add_watch_later : Uuid → Uuid → Uuid → Request
  remove_watch_later : Uuid → Uuid → Request
  mark_notification_read : Uuid → Uuid → Request
  mark_all_notifications_read : Uuid → Request

-- What a request does at a time; the value that it returns goes into the response.
unfoldable pub serve : Time → Request → Action Unit
serve now (set_like fresh user video is_like) =
    Ratings.set_like now fresh user video is_like >> pure tt
serve now (remove_like user video) = Ratings.remove_like now user video
serve now (create_comment fresh fresh_notice user video parent content) =
    Comments.create_comment now fresh fresh_notice user video parent content >> pure tt
serve now (update_comment user comment content) =
    Comments.update_comment now user comment content >> pure tt
serve now (delete_comment actor can_moderate comment) =
    Comments.delete_comment now actor can_moderate comment
serve now (subscribe fresh fresh_notice subscriber creator) =
    Subscriptions.subscribe now fresh fresh_notice subscriber creator
serve now (unsubscribe subscriber creator) = Subscriptions.unsubscribe now subscriber creator
serve now (create_playlist fresh user title description visibility) =
    Playlists.create_playlist now fresh user title description visibility >> pure tt
serve now (update_playlist user playlist title description visibility) =
    Playlists.update_playlist now user playlist title description visibility >> pure tt
serve now (delete_playlist user playlist) = Playlists.delete_playlist user playlist
serve now (add_playlist_video fresh user playlist video) =
    Playlists.add_playlist_video now fresh user playlist video >> pure tt
serve now (remove_playlist_video user playlist video) =
    Playlists.remove_playlist_video now user playlist video
serve now (add_watch_later fresh user video) = Notices.add_watch_later now fresh user video
serve now (remove_watch_later user video) = Notices.remove_watch_later user video
serve now (mark_notification_read user notification) =
    Notices.mark_notification_read user notification
serve now (mark_all_notifications_read user) = Notices.mark_all_notifications_read user >> pure tt

-- Requests at their times, whether or not one of them fails.
unfoldable pub serve_all : List (Time × Request) → World → World
unfolding serve
serve_all [] w = w
serve_all ((now, r) ∷ rs) w = serve_all rs (serve now r w).1
