-- ===== src/Social/Counters/Kept.antt =====
-- Every statement of internal/repository/postgres/social_repository.go leaves every counter exact, and
-- so do the reads of videos and users.
use video_streaming_service.Common.{String, arith}
use video_streaming_service.Domain.User.{Uuid, Time}
use video_streaming_service.Domain.Social.{
  Like, Comment, Subscription, Playlist, WatchLater, Notification,
}
use video_streaming_service.Postgres.Calls.{Keeps, round_trip, transaction, ◌>>=◌}
use video_streaming_service.Postgres.Videos.{get_by_id}
use video_streaming_service.Postgres.Moderated.{get_user}
use video_streaming_service.Postgres.Likes.{
  upsert_like, delete_like, rate, unrate, like_inserted, like_updated, like_deleted,
}
use video_streaming_service.Postgres.Comments.{
  get_comment, create_comment, soft_delete_comment, update_comment_content, hide, rewrite,
}
use video_streaming_service.Postgres.Subscriptions.{
  create_subscription, delete_subscription, subscribe, unsubscribe,
}
use video_streaming_service.Postgres.Playlists.{
  get_playlist, create_playlist, update_playlist, delete_playlist, add_playlist_video,
  lock_playlist, append_video, remove_playlist_video, leave,
}
use video_streaming_service.Postgres.Notices.{
  upsert_watch_later, delete_watch_later, create_notification, mark_notification_read,
  mark_all_notifications_read,
}
use video_streaming_service.Social.Counters.Likes.{
  upsert_like-LikesCounted, delete_like-LikesCounted,
}
use video_streaming_service.Social.Counters.Comments.{create_comment-ThreadsCounted}
use video_streaming_service.Social.Counters.Edits.{
  soft_delete_comment-ThreadsCounted, update_comment_content-ThreadsCounted,
}
use video_streaming_service.Social.Counters.Subscriptions.{
  create_subscription-SubscribersCounted, delete_subscription-SubscribersCounted,
}
use video_streaming_service.Social.Counters.Playlists.{
  create_playlist-PlaylistsCounted, update_playlist-PlaylistsCounted,
  delete_playlist-PlaylistsCounted, add_playlist_video-PlaylistsCounted,
  remove_playlist_video-PlaylistsCounted,
}
use video_streaming_service.Social.Counters.Frames.{
  upsert_like-ThreadsCounted, delete_like-ThreadsCounted, create_comment-LikesCounted,
  soft_delete_comment-LikesCounted, update_comment_content-LikesCounted,
}
use video_streaming_service.Social.Counters.Statements.{IsCounted, untouched, rates, follows, lists}

pub get_by_id-IsCounted : (id : Uuid) → Keeps IsCounted (get_by_id id)
unfolding get_by_id round_trip
get_by_id-IsCounted id = untouched _ (λ w. ground arith) (λ w. ground arith) (λ w. ground arith)

pub get_user-IsCounted : (id : Uuid) → Keeps IsCounted (get_user id)
unfolding get_user round_trip
get_user-IsCounted id = untouched _ (λ w. ground arith) (λ w. ground arith) (λ w. ground arith)

pub get_comment-IsCounted : (id : Uuid) → Keeps IsCounted (get_comment id)
unfolding get_comment round_trip
get_comment-IsCounted id = untouched _ (λ w. ground arith) (λ w. ground arith) (λ w. ground arith)

pub get_playlist-IsCounted : (id : Uuid) → Keeps IsCounted (get_playlist id)
unfolding get_playlist round_trip
get_playlist-IsCounted id = untouched _ (λ w. ground arith) (λ w. ground arith) (λ w. ground arith)

pub upsert_like-IsCounted : (now : Time) (l : Like) → Keeps IsCounted (upsert_like now l)
unfolding upsert_like round_trip rate like_inserted like_updated
upsert_like-IsCounted now l =
    rates _ (upsert_like-LikesCounted now l) (upsert_like-ThreadsCounted now l) (λ w. ground arith)
      (λ w. ground arith)

pub delete_like-IsCounted :
    (now : Time) (user video : Uuid) → Keeps IsCounted (delete_like now user video)
unfolding delete_like round_trip unrate like_deleted
delete_like-IsCounted now user video =
    rates _ (delete_like-LikesCounted now user video) (delete_like-ThreadsCounted now user video)
      (λ w. ground arith) (λ w. ground arith)

pub create_comment-IsCounted : (now : Time) (c : Comment) → Keeps IsCounted (create_comment now c)
unfolding create_comment round_trip
create_comment-IsCounted now c =
    rates _ (create_comment-LikesCounted now c) (create_comment-ThreadsCounted now c)
      (λ w. ground arith) (λ w. ground arith)

pub soft_delete_comment-IsCounted :
    (now : Time) (id : Uuid) → Keeps IsCounted (soft_delete_comment now id)
unfolding soft_delete_comment round_trip hide
soft_delete_comment-IsCounted now id =
    rates _ (soft_delete_comment-LikesCounted now id) (soft_delete_comment-ThreadsCounted now id)
      (λ w. ground arith) (λ w. ground arith)

pub update_comment_content-IsCounted :
    (now : Time) (id : Uuid) (content : String)
    → Keeps IsCounted (update_comment_content now id content)
unfolding update_comment_content round_trip rewrite
update_comment_content-IsCounted now id content =
    rates _ (update_comment_content-LikesCounted now id content)
      (update_comment_content-ThreadsCounted now id content) (λ w. ground arith) (λ w. ground arith)

pub create_subscription-IsCounted :
    (now : Time) (s : Subscription) → Keeps IsCounted (create_subscription now s)
unfolding create_subscription round_trip subscribe
create_subscription-IsCounted now s =
    follows _ (create_subscription-SubscribersCounted now s) (λ w. ground arith) (λ w. ground arith)

pub delete_subscription-IsCounted :
    (now : Time) (subscriber creator : Uuid)
    → Keeps IsCounted (delete_subscription now subscriber creator)
unfolding delete_subscription round_trip unsubscribe
delete_subscription-IsCounted now subscriber creator =
    follows _ (delete_subscription-SubscribersCounted now subscriber creator) (λ w. ground arith)
      (λ w. ground arith)

pub create_playlist-IsCounted : (p : Playlist) → Keeps IsCounted (create_playlist p)
unfolding create_playlist round_trip
create_playlist-IsCounted p =
    lists _ (create_playlist-PlaylistsCounted p) (λ w. ground arith) (λ w. ground arith)

pub update_playlist-IsCounted :
    (now : Time) (p : Playlist) → Keeps IsCounted (update_playlist now p)
unfolding update_playlist round_trip
update_playlist-IsCounted now p =
    lists _ (update_playlist-PlaylistsCounted now p) (λ w. ground arith) (λ w. ground arith)

pub delete_playlist-IsCounted : (id : Uuid) → Keeps IsCounted (delete_playlist id)
unfolding delete_playlist round_trip
delete_playlist-IsCounted id =
    lists _ (delete_playlist-PlaylistsCounted id) (λ w. ground arith) (λ w. ground arith)

pub add_playlist_video-IsCounted :
    (now : Time) (fresh playlist video : Uuid)
    → Keeps IsCounted (add_playlist_video now fresh playlist video)
unfolding add_playlist_video round_trip transaction lock_playlist append_video ◌>>=◌
add_playlist_video-IsCounted now fresh playlist video =
    lists _ (add_playlist_video-PlaylistsCounted now fresh playlist video) (λ w. ground arith)
      (λ w. ground arith)

pub remove_playlist_video-IsCounted :
    (now : Time) (playlist video : Uuid)
    → Keeps IsCounted (remove_playlist_video now playlist video)
unfolding remove_playlist_video round_trip leave
remove_playlist_video-IsCounted now playlist video =
    lists _ (remove_playlist_video-PlaylistsCounted now playlist video) (λ w. ground arith)
      (λ w. ground arith)

pub upsert_watch_later-IsCounted : (x : WatchLater) → Keeps IsCounted (upsert_watch_later x)
unfolding upsert_watch_later round_trip
upsert_watch_later-IsCounted x =
    untouched _ (λ w. ground arith) (λ w. ground arith) (λ w. ground arith)

pub delete_watch_later-IsCounted :
    (user video : Uuid) → Keeps IsCounted (delete_watch_later user video)
unfolding delete_watch_later round_trip
delete_watch_later-IsCounted user video =
    untouched _ (λ w. ground arith) (λ w. ground arith) (λ w. ground arith)

pub create_notification-IsCounted : (n : Notification) → Keeps IsCounted (create_notification n)
unfolding create_notification round_trip
create_notification-IsCounted n =
    untouched _ (λ w. ground arith) (λ w. ground arith) (λ w. ground arith)

pub mark_notification_read-IsCounted :
    (id user : Uuid) → Keeps IsCounted (mark_notification_read id user)
unfolding mark_notification_read round_trip
mark_notification_read-IsCounted id user =
    untouched _ (λ w. ground arith) (λ w. ground arith) (λ w. ground arith)

pub mark_all_notifications_read-IsCounted :
    (user : Uuid) → Keeps IsCounted (mark_all_notifications_read user)
unfolding mark_all_notifications_read round_trip
mark_all_notifications_read-IsCounted user =
    untouched _ (λ w. ground arith) (λ w. ground arith) (λ w. ground arith)
