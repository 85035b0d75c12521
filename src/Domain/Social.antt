-- ===== src/Domain/Social.antt =====
-- internal/domain/social.go: likes, comments, subscriptions, playlists, the list to watch later and
-- notifications, with their validation.
use Prim.Native.String.{len}
use video_streaming_service.Common.{
  ℕ, ℤ, Bool, not, ◌||◌, List, [], ◌∷◌, Option, String, str_eq, any, Done, ok, invalid_input, ◌>>◌,
  fail_if, ltb, ◌==◌,
}
use video_streaming_service.Domain.User.{Uuid, Time}
use video_streaming_service.Domain.Video.{Video}

-- uuid.Nil
abbrev pub nil_uuid : Uuid
nil_uuid = 0

pub record Subscription : Type 0 where
  pub id : Uuid
  pub subscriber_id : Uuid
  pub creator_id : Uuid
  pub notify_uploads : Bool
  pub created_at : Time

unfoldable pub validate_subscription : Subscription → Done
validate_subscription s = do
  fail_if (s.subscriber_id == nil_uuid) invalid_input
  fail_if (s.creator_id == nil_uuid) invalid_input
  fail_if (s.subscriber_id == s.creator_id) invalid_input
  ok tt

pub record Like : Type 0 where
  pub id : Uuid
  pub user_id : Uuid
  pub video_id : Uuid
  pub is_like : Bool
  pub created_at : Time

unfoldable pub validate_like : Like → Done
validate_like l = do
  fail_if (l.user_id == nil_uuid) invalid_input
  fail_if (l.video_id == nil_uuid) invalid_input
  ok tt

-- Without the two columns of the author that a listing joins to it.
pub record Comment : Type 0 where
  pub id : Uuid
  pub video_id : Uuid
  pub user_id : Uuid
  pub parent_id : Option Uuid
  pub content : String
  pub like_count : ℤ
  pub reply_count : ℤ
  pub pinned : Bool
  pub edited_at : Option Time
  pub created_at : Time
  pub updated_at : Time
  pub deleted_at : Option Time

unfoldable pub validate_comment : Comment → Done
validate_comment c = do
  fail_if (c.user_id == nil_uuid) invalid_input
  fail_if (c.video_id == nil_uuid) invalid_input
  fail_if (len c.content == 0) invalid_input
  fail_if (ltb 10000 (len c.content)) invalid_input
  ok tt

pub record Playlist : Type 0 where
  pub id : Uuid
  pub user_id : Uuid
  pub title : String
  pub description : String
  pub visibility : String
  pub video_count : ℤ
  pub created_at : Time
  pub updated_at : Time

unfoldable pub valid_visibility : String → Bool
valid_visibility v = str_eq v "public" || str_eq v "private" || str_eq v "unlisted"

unfoldable pub validate_playlist : Playlist → Done
unfolding valid_visibility
validate_playlist p = do
  fail_if (p.user_id == nil_uuid) invalid_input
  fail_if (len p.title == 0 || ltb 255 (len p.title)) invalid_input
  fail_if (not (valid_visibility p.visibility)) invalid_input
  ok tt

-- The position is an int32 that no caller makes negative.
pub record PlaylistVideo : Type 0 where
  pub id : Uuid
  pub playlist_id : Uuid
  pub video_id : Uuid
  pub position : ℕ
  pub added_at : Time

pub record WatchLater : Type 0 where
  pub id : Uuid
  pub user_id : Uuid
  pub video_id : Uuid
  pub added_at : Time

unfoldable pub validate_watch_later : WatchLater → Done
validate_watch_later w = do
  fail_if (w.user_id == nil_uuid) invalid_input
  fail_if (w.video_id == nil_uuid) invalid_input
  ok tt

-- A row of a listing of subscribers or of subscriptions, with the user at its other end.
pub record SubscriptionEntry : Type 0 where
  pub user_id : Uuid
  pub username : String
  pub avatar_url : String
  pub subscriber_count : ℤ
  pub notify_uploads : Bool
  pub subscribed_at : Time

-- A video of a playlist with its place in the order. Places may have gaps.
pub record PlaylistItem : Type 0 where
  pub position : ℕ
  pub added_at : Time
  pub video : Video

pub record WatchLaterItem : Type 0 where
  pub added_at : Time
  pub video : Video

-- `type NotificationType string`: the six constants
unfoldable pub notification_types : List String
notification_types = "new_video" ∷ "comment" ∷ "reply" ∷ "like" ∷ "subscriber" ∷ "mention" ∷ []

pub record Notification : Type 0 where
  pub id : Uuid
  pub user_id : Uuid
  pub kind : String
  pub title : String
  pub message : String
  pub action_url : Option String
  pub actor_id : Option Uuid
  pub video_id : Option Uuid
  pub comment_id : Option Uuid
  pub read : Bool
  pub created_at : Time

unfoldable pub validate_notification : Notification → Done
unfolding notification_types
validate_notification n = do
  fail_if (n.user_id == nil_uuid) invalid_input
  fail_if (len n.title == 0 || ltb 255 (len n.title)) invalid_input
  fail_if (not (any (str_eq n.kind) notification_types)) invalid_input
  ok tt
