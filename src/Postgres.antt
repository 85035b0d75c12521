-- ===== src/Postgres.antt =====
-- internal/repository/postgres: the tables and the calls to them. A call of the database may fail at
-- any time; which calls fail is the environment's choice, given as a list of outcomes.
pub mod Calls
pub mod Cascade
pub mod Videos
pub mod Moderated
pub mod Likes
pub mod Comments
pub mod Subscriptions
pub mod Playlists
pub mod Notices
use video_streaming_service.Common.{ℤ, Bool, Option, List, Result}
use video_streaming_service.Domain.User.{User, Uuid}
use video_streaming_service.Domain.Report.{ContentReport}
use video_streaming_service.Domain.Video.{Video}
use video_streaming_service.Domain.Social.{
  Like, Comment, Subscription, Playlist, PlaylistVideo, WatchLater, Notification,
}

-- The tables of migrations/000009_add_social_features.up.sql, and the column users.subscriber_count.
pub record SocialTables : Type 0 where
  pub likes : List Like
  pub comments : List Comment
  pub subscriptions : List Subscription
  pub subscriber_counts : Uuid → ℤ
  pub playlists : List Playlist
  pub playlist_videos : List PlaylistVideo
  pub watch_later : List WatchLater
  pub notifications : List Notification

-- The tables of videos and users by primary key, the reports, the social tables, and the outcomes of
-- the calls to come: `true` is a call that the database does not carry out. Past the end of the list
-- every call is carried out.
pub record World : Type 0 where
  pub videos : Uuid → Option Video
  pub users : Uuid → Option User
  pub reports : List ContentReport
  pub social : SocialTables
  pub faults : List Bool

-- A piece of code that calls the database; what was written before an error stays written.
abbrev pub Action : Type 0 → Type 0
Action A = World → Result A × World
