-- ===== src/Postgres/Notices.antt =====
-- internal/repository/postgres/social_repository.go: the lists to watch later and the notifications,
-- with their tables (migrations/000009_add_social_features.up.sql).
use video_streaming_service.Common.{
  ℕ, Bool, true, false, not, ◌&&◌, List, [], ◌∷◌, ◌++◌, Option, none, some, str_eq, any, length, ok,
  err, database_error, watch_later_not_found, notification_not_found, leb, ◌==◌, if◌then◌else◌,
}
use video_streaming_service.Common.Text.{codes}
use video_streaming_service.Common.Rows.{
  filter, find, count, sort, page, remove_first, update_first, update_where, Keys.lookup,
}
use video_streaming_service.Domain.User.{Uuid, is_some}
use video_streaming_service.Domain.Video.{Video}
use video_streaming_service.Domain.Social.{
  WatchLater, WatchLaterItem, Notification, notification_types,
}
use video_streaming_service.Postgres.{World, Action}
use video_streaming_service.Postgres.Calls.{round_trip}
use video_streaming_service.Postgres.Comments.{comment_id}
use video_streaming_service.Postgres.Moderated.{is_user, is_video}

-- UNIQUE(user_id, video_id)
abbrev pub is_saved : Uuid → Uuid → WatchLater → Bool
is_saved user video x = x.user_id == user && x.video_id == video

abbrev pub with_watch_later : List WatchLater → World → World
with_watch_later rows w = record w { social = record w.social { watch_later = rows } }

abbrev pub accepts_watch_later : World → WatchLater → Bool
accepts_watch_later w x =
    not (is_some (lookup (λ y. y.id) x.id w.social.watch_later))
    && (is_some (w.users x.user_id) && is_some (w.videos x.video_id))

-- A video that is saved already is left as it is.
unfoldable pub upsert_watch_later : WatchLater → Action Unit
upsert_watch_later x = round_trip database_error (λ w.
    if is_some (find (is_saved x.user_id x.video_id) w.social.watch_later)
    then (ok tt, w)
    else if accepts_watch_later w x
    then (ok tt, with_watch_later (w.social.watch_later ++ x ∷ []) w)
    else (err database_error, w))

unfoldable pub delete_watch_later : Uuid → Uuid → Action Unit
delete_watch_later user video = round_trip database_error (λ w.
    if is_some (find (is_saved user video) w.social.watch_later)
    then (ok tt, with_watch_later (remove_first (is_saved user video) w.social.watch_later) w)
    else (err watch_later_not_found, w))

join_video : WatchLater → Option Video → List WatchLaterItem → List WatchLaterItem
join_video x none rest = rest
join_video x (some v) rest = record { added_at = x.added_at; video = v } ∷ rest

unfoldable pub join_videos : World → List WatchLater → List WatchLaterItem
unfolding join_video
join_videos w [] = []
join_videos w (x ∷ xs) = join_video x (w.videos x.video_id) (join_videos w xs)

abbrev pub lately_added : WatchLater → WatchLater → Bool
lately_added a b = leb b.added_at a.added_at

unfoldable pub list_watch_later : Uuid → ℕ → ℕ → Action (List WatchLaterItem)
list_watch_later user limit offset = round_trip database_error (λ w. (
  ok (
      page limit offset
        (join_videos w (sort lately_added (filter (λ x. x.user_id == user) w.social.watch_later)))),
  w,
))

unfoldable pub count_watch_later : Uuid → Action ℕ
count_watch_later user =
    round_trip database_error (λ w. (ok (count (λ x. x.user_id == user) w.social.watch_later), w))

abbrev pub with_notifications : List Notification → World → World
with_notifications rows w = record w { social = record w.social { notifications = rows } }

abbrev pub is_comment : World → Option Uuid → Bool
is_comment w none = true
is_comment w (some id) = is_some (lookup comment_id id w.social.comments)

-- The enumeration of the kinds, `VARCHAR(255)`, the primary key and the rows that are referred to.
abbrev pub accepts_notification : World → Notification → Bool
accepts_notification w n =
    not (is_some (lookup (λ x. x.id) n.id w.social.notifications))
    && (any (str_eq n.kind) notification_types
        && (leb (length (codes n.title)) 255
            && (is_some (w.users n.user_id)
                && (is_user w n.actor_id && (is_video w n.video_id && is_comment w n.comment_id)))))

-- A notification begins unread.
unfoldable pub create_notification : Notification → Action Unit
create_notification n = round_trip database_error (λ w.
    if accepts_notification w n
    then (ok tt, with_notifications (w.social.notifications ++ record n { read = false } ∷ []) w)
    else (err database_error, w))

-- `WHERE user_id = $1`, and `AND read = false` if only those are asked for
abbrev pub is_addressed : Uuid → Bool → Notification → Bool
is_addressed user unread_only n = n.user_id == user && not (unread_only && n.read)

abbrev pub newest_first : Notification → Notification → Bool
newest_first a b = leb b.created_at a.created_at

unfoldable pub list_notifications : Uuid → Bool → ℕ → ℕ → Action (List Notification)
list_notifications user unread_only limit offset = round_trip database_error (λ w. (
  ok (
      page limit offset
        (sort newest_first (filter (is_addressed user unread_only) w.social.notifications))),
  w,
))

unfoldable pub count_notifications : Uuid → Bool → Action ℕ
count_notifications user unread_only =
    round_trip database_error
      (λ w. (ok (count (is_addressed user unread_only) w.social.notifications), w))

-- `WHERE id = $1 AND user_id = $2`
abbrev pub is_own : Uuid → Uuid → Notification → Bool
is_own id user n = n.id == id && n.user_id == user

unfoldable pub mark_notification_read : Uuid → Uuid → Action Unit
mark_notification_read id user = round_trip database_error (λ w.
    if is_some (find (is_own id user) w.social.notifications)
    then (
      ok tt,
      with_notifications
          (update_first (is_own id user) (λ n. record n { read = true }) w.social.notifications) w,
    )
    else (err notification_not_found, w))

-- How many were unread.
unfoldable pub mark_all_notifications_read : Uuid → Action ℕ
mark_all_notifications_read user = round_trip database_error (λ w. (
  ok (count (is_addressed user true) w.social.notifications),
  with_notifications
      (update_where (is_addressed user true) (λ n. record n { read = true }) w.social.notifications)
      w,
))
