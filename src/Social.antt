-- ===== src/Social.antt =====
-- internal/service/social_service.go: likes, comments, subscriptions, playlists, the lists to watch
-- later and notifications, over the tables of the module Postgres. `now` stands for the readings of the
-- clock in one call and the `fresh` ids for those that uuid.New() gives. Logging is left out.
pub mod Ratings
pub mod Comments
pub mod Subscriptions
pub mod Playlists
pub mod Notices
pub mod Requests
pub mod Counters
use video_streaming_service.Common.{
  ℕ, zero, suc, Bool, Option, none, some, String, length, leb, ◌==◌, if◌then◌else◌,
}
use video_streaming_service.Common.Text.{codes, concat}
use video_streaming_service.Domain.User.{Uuid, Time}
use video_streaming_service.Domain.Video.{Video}
use video_streaming_service.Domain.Social.{Comment, Notification, validate_notification}
use video_streaming_service.Postgres.{Action}
use video_streaming_service.Postgres.Calls.{◌>>=◌, ◌>>◌, pure, give, attempt}
use video_streaming_service.Postgres.Notices.{create_notification}

-- `string(runes[:n])`
unfoldable pub first_runes : ℕ → String → String
first_runes zero s = ""
first_runes (suc n) String.[] = ""
first_runes (suc n) (String.◌∷◌ c s) = String.◌∷◌ c (first_runes n s)

unfoldable pub truncate_for_notification : String → String
unfolding first_runes
truncate_for_notification content =
    if leb (length (codes content)) 200 then content else concat (first_runes 199 content) "…"

-- A notification that is refused or lost is logged and passed over.
unfoldable pub notify : Uuid → Time → Notification → Action Unit
notify fresh now n =
    let stamped = record n { id = fresh; created_at = now } in
    attempt (do give (validate_notification stamped); create_notification stamped)

-- What the two kinds of notification about a comment share.
abbrev pub about_comment : Comment → Uuid → String → String → Notification
about_comment c recipient kind title = record {
  id = 0;
  user_id = recipient;
  kind = kind;
  title = title;
  message = truncate_for_notification c.content;
  action_url = none;
  actor_id = some c.user_id;
  video_id = some c.video_id;
  comment_id = some c.id;
  read = Bool.false;
  created_at = 0;
}

unfoldable pub notify_owner : Uuid → Time → Comment → Option Uuid → Action Unit
unfolding notify truncate_for_notification
notify_owner fresh now c none = pure tt
notify_owner fresh now c (some owner) =
    if owner == c.user_id
    then pure tt
    else notify fresh now (about_comment c owner "comment" "New comment on your video")

unfoldable pub notify_for_comment : Uuid → Time → Comment → Option Comment → Video → Action Unit
unfolding notify truncate_for_notification notify_owner
notify_for_comment fresh now c (some parent) video =
    if parent.user_id == c.user_id
    then pure tt
    else notify fresh now (about_comment c parent.user_id "reply" "New reply to your comment")
notify_for_comment fresh now c none video = notify_owner fresh now c video.user_id
