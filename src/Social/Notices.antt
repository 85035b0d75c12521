-- ===== src/Social/Notices.antt =====
-- The lists to watch later and the reading of notifications (internal/service/social_service.go).
use video_streaming_service.Common.{ℕ, Bool, true, List}
use video_streaming_service.Domain.User.{Uuid, Time}
use video_streaming_service.Domain.Social.{
  WatchLater, WatchLaterItem, Notification, validate_watch_later,
}
use video_streaming_service.Postgres.{Action}
use video_streaming_service.Postgres.Calls.{◌>>=◌, ◌>>◌, pure, give}
use video_streaming_service.Postgres.Videos.{get_by_id}
use video_streaming_service.Postgres.Notices as Rows

unfoldable pub add_watch_later : Time → Uuid → Uuid → Uuid → Action Unit
add_watch_later now fresh user video = do
  get_by_id video
  let entry : WatchLater = record { id = fresh; user_id = user; video_id = video; added_at = now }
  give (validate_watch_later entry)
  Rows.upsert_watch_later entry

unfoldable pub remove_watch_later : Uuid → Uuid → Action Unit
remove_watch_later user video = Rows.delete_watch_later user video

unfoldable pub list_watch_later : Uuid → ℕ → ℕ → Action (List WatchLaterItem × ℕ)
list_watch_later user limit offset = do
  items ← Rows.list_watch_later user limit offset
  total ← Rows.count_watch_later user
  pure (items, total)

unfoldable pub list_notifications : Uuid → Bool → ℕ → ℕ → Action (List Notification × ℕ)
list_notifications user unread_only limit offset = do
  notifications ← Rows.list_notifications user unread_only limit offset
  total ← Rows.count_notifications user unread_only
  pure (notifications, total)

unfoldable pub unread_notification_count : Uuid → Action ℕ
unread_notification_count user = Rows.count_notifications user true

unfoldable pub mark_notification_read : Uuid → Uuid → Action Unit
mark_notification_read user notification = Rows.mark_notification_read notification user

unfoldable pub mark_all_notifications_read : Uuid → Action ℕ
mark_all_notifications_read user = Rows.mark_all_notifications_read user
