-- ===== src/Social/Counters/Requests.antt =====
-- No sequence of requests leaves a counter behind (internal/service/social_service.go).
use video_streaming_service.Common.{◌≡◌, sym, subst, arith, List, [], ◌∷◌, Option, none, some}
use video_streaming_service.Domain.User.{Uuid, Time}
use video_streaming_service.Domain.Video.{Video}
use video_streaming_service.Domain.Social.{Comment, Notification}
use video_streaming_service.Postgres.{World}
use video_streaming_service.Postgres.Calls.{Keeps, keeps_rules}
use video_streaming_service.Postgres.Videos.{get_by_id}
use video_streaming_service.Postgres.Comments.{get_comment}
use video_streaming_service.Social.{notify, notify_for_comment, notify_owner}
use video_streaming_service.Social.Ratings.{set_like, remove_like}
use video_streaming_service.Social.Comments.{
  undeleted, parent_of, reload, create_comment, update_comment, delete_comment, owns_video,
}
use video_streaming_service.Social.Subscriptions.{subscribe, unsubscribe}
use video_streaming_service.Social.Playlists.{
  owned_by, owned_playlist, create_playlist, update_playlist, delete_playlist, add_playlist_video,
  remove_playlist_video,
}
use video_streaming_service.Social.Notices.{
  add_watch_later, remove_watch_later, mark_notification_read, mark_all_notifications_read,
}
use video_streaming_service.Social.Requests.{Request, serve, serve_all}
use video_streaming_service.Social.Counters.Statements.{IsCounted}
use video_streaming_service.Social.Counters.Kept.{
  get_by_id-IsCounted, get_user-IsCounted, get_comment-IsCounted, get_playlist-IsCounted,
  upsert_like-IsCounted, delete_like-IsCounted, create_comment-IsCounted,
  soft_delete_comment-IsCounted, update_comment_content-IsCounted, create_subscription-IsCounted,
  delete_subscription-IsCounted, create_playlist-IsCounted, update_playlist-IsCounted,
  delete_playlist-IsCounted, add_playlist_video-IsCounted, remove_playlist_video-IsCounted,
  upsert_watch_later-IsCounted, delete_watch_later-IsCounted, create_notification-IsCounted,
  mark_notification_read-IsCounted, mark_all_notifications_read-IsCounted,
}

ruleset statements_rules = (
  get_by_id-IsCounted, get_user-IsCounted, get_comment-IsCounted, get_playlist-IsCounted,
  upsert_like-IsCounted, delete_like-IsCounted, create_comment-IsCounted,
  soft_delete_comment-IsCounted, update_comment_content-IsCounted, create_subscription-IsCounted,
  delete_subscription-IsCounted, create_playlist-IsCounted, update_playlist-IsCounted,
  delete_playlist-IsCounted, add_playlist_video-IsCounted, remove_playlist_video-IsCounted,
  upsert_watch_later-IsCounted, delete_watch_later-IsCounted, create_notification-IsCounted,
  mark_notification_read-IsCounted, mark_all_notifications_read-IsCounted,
)

notify-IsCounted :
    (fresh : Uuid) (now : Time) (n : Notification) → Keeps IsCounted (notify fresh now n)
unfolding notify
notify-IsCounted fresh now n = search (keeps_rules, statements_rules)

notify_owner-IsCounted :
    (fresh : Uuid) (now : Time) (c : Comment) (owner : Option Uuid)
    → Keeps IsCounted (notify_owner fresh now c owner)
unfolding notify_owner
notify_owner-IsCounted fresh now c none = search keeps_rules
notify_owner-IsCounted fresh now c (some owner) = search (keeps_rules, notify-IsCounted)

notify_for_comment-IsCounted :
    (fresh : Uuid) (now : Time) (c : Comment) (parent : Option Comment) (video : Video)
    → Keeps IsCounted (notify_for_comment fresh now c parent video)
unfolding notify_for_comment
notify_for_comment-IsCounted fresh now c none video = notify_owner-IsCounted fresh now c _
notify_for_comment-IsCounted fresh now c (some parent) video =
    search (keeps_rules, notify-IsCounted)

undeleted-IsCounted : (c : Comment) → Keeps IsCounted (undeleted c)
unfolding undeleted
undeleted-IsCounted c = search keeps_rules

parent_of-IsCounted :
    (video : Uuid) (parent : Option Uuid) → Keeps IsCounted (parent_of video parent)
unfolding parent_of
parent_of-IsCounted video none = search keeps_rules
parent_of-IsCounted video (some parent) =
    search (keeps_rules, statements_rules, undeleted-IsCounted)

reload-world : (c : Comment) (w : World) → (reload c w).1 ≡ (get_comment c.id w).1
unfolding reload
reload-world c w = ground arith

reload-IsCounted : (c : Comment) → Keeps IsCounted (reload c)
reload-IsCounted c = record {
  run = λ w h. subst IsCounted (sym (reload-world c w)) ((get_comment-IsCounted c.id).run w h);
}

owns_video-world :
    (actor video : Uuid) (w : World) → (owns_video actor video w).1 ≡ (get_by_id video w).1
unfolding owns_video
owns_video-world actor video w = ground arith

owns_video-IsCounted : (actor video : Uuid) → Keeps IsCounted (owns_video actor video)
owns_video-IsCounted actor video = record {
  run = λ w h.
      subst IsCounted (sym (owns_video-world actor video w)) ((get_by_id-IsCounted video).run w h);
}

owned_playlist-IsCounted : (user playlist : Uuid) → Keeps IsCounted (owned_playlist user playlist)
unfolding owned_playlist owned_by
owned_playlist-IsCounted user playlist = search (keeps_rules, statements_rules)

ruleset parts_rules = (
  notify-IsCounted, notify_for_comment-IsCounted, undeleted-IsCounted, parent_of-IsCounted,
  reload-IsCounted, owns_video-IsCounted, owned_playlist-IsCounted,
)

-- Whatever it answers, a request leaves every counter exact.
serve-IsCounted : (now : Time) (r : Request) → Keeps IsCounted (serve now r)
unfolding serve set_like remove_like create_comment update_comment delete_comment subscribe
    unsubscribe create_playlist update_playlist delete_playlist add_playlist_video
    remove_playlist_video add_watch_later remove_watch_later mark_notification_read
    mark_all_notifications_read
serve-IsCounted now (Request.set_like fresh user video is_like) =
    search (keeps_rules, statements_rules)
serve-IsCounted now (Request.remove_like user video) = search statements_rules
serve-IsCounted now (Request.create_comment fresh fresh_notice user video parent content) =
    search (keeps_rules, statements_rules, parts_rules) depth 9
serve-IsCounted now (Request.update_comment user comment content) =
    search (keeps_rules, statements_rules, parts_rules) depth 9
serve-IsCounted now (Request.delete_comment actor can_moderate comment) =
    search (keeps_rules, statements_rules, parts_rules) depth 9
serve-IsCounted now (Request.subscribe fresh fresh_notice subscriber creator) =
    search (keeps_rules, statements_rules, parts_rules) depth 9
serve-IsCounted now (Request.unsubscribe subscriber creator) = search statements_rules
serve-IsCounted now (Request.create_playlist fresh user title description visibility) =
    search (keeps_rules, statements_rules)
serve-IsCounted now (Request.update_playlist user playlist title description visibility) =
    search (keeps_rules, statements_rules, parts_rules) depth 9
serve-IsCounted now (Request.delete_playlist user playlist) =
    search (keeps_rules, statements_rules, parts_rules) depth 9
serve-IsCounted now (Request.add_playlist_video fresh user playlist video) =
    search (keeps_rules, statements_rules, parts_rules) depth 9
serve-IsCounted now (Request.remove_playlist_video user playlist video) =
    search (keeps_rules, statements_rules, parts_rules) depth 9
serve-IsCounted now (Request.add_watch_later fresh user video) =
    search (keeps_rules, statements_rules)
serve-IsCounted now (Request.remove_watch_later user video) = search statements_rules
serve-IsCounted now (Request.mark_notification_read user notification) = search statements_rules
serve-IsCounted now (Request.mark_all_notifications_read user) =
    search (keeps_rules, statements_rules)

-- No sequence of requests, whatever calls of the database fail in them, leaves the number of likes or
-- comments of a video, of replies to a comment, of subscribers of a user or of videos in a playlist
-- other than the number of the rows.
pub serve_all-IsCounted :
    (rs : List (Time × Request)) (w : World) → IsCounted w → IsCounted (serve_all rs w)
unfolding serve_all
serve_all-IsCounted [] w h = h
serve_all-IsCounted ((now, r) ∷ rs) w h =
    serve_all-IsCounted rs (serve now r w).1 ((serve-IsCounted now r).run w h)
