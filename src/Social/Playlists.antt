-- ===== src/Social/Playlists.antt =====
-- The playlists (internal/service/social_service.go).
pub mod Privacy
pub mod Order
pub mod Contents
use video_streaming_service.Common.{
  ℕ, pos, not, ◌&&◌, List, Option, none, some, String, str_eq, forbidden, playlist_not_found, ◌==◌,
  if◌then◌else◌,
}
use video_streaming_service.Domain.User.{Uuid, Time}
use video_streaming_service.Domain.Video.{is_id}
use video_streaming_service.Domain.Social.{Playlist, PlaylistVideo, PlaylistItem, validate_playlist}
use video_streaming_service.Postgres.{Action}
use video_streaming_service.Postgres.Calls.{◌>>=◌, ◌>>◌, pure, raise, give}
use video_streaming_service.Postgres.Videos.{get_by_id}
use video_streaming_service.Postgres.Playlists as Rows

unfoldable pub create_playlist : Time → Uuid → Uuid → String → String → String → Action Playlist
create_playlist now fresh user title description visibility = do
  let playlist : Playlist = record {
    id = fresh;
    user_id = user;
    title = title;
    description = description;
    visibility = if str_eq visibility "" then "public" else visibility;
    video_count = pos 0;
    created_at = now;
    updated_at = now;
  }
  give (validate_playlist playlist)
  Rows.create_playlist playlist
  pure playlist

-- A private playlist is not found by anybody but its owner.
unfoldable pub visible_to : Option Uuid → Playlist → Action Playlist
visible_to viewer p =
    if str_eq p.visibility "private" && not (is_id viewer p.user_id)
    then raise playlist_not_found
    else pure p

unfoldable pub get_playlist : Option Uuid → Uuid → Action Playlist
unfolding visible_to
get_playlist viewer id = do playlist ← Rows.get_playlist id; visible_to viewer playlist

unfoldable pub owned_by : Uuid → Playlist → Action Playlist
owned_by user p =
    if p.user_id == user
    then pure p
    else if str_eq p.visibility "private"
    then raise playlist_not_found
    else raise forbidden

unfoldable pub owned_playlist : Uuid → Uuid → Action Playlist
unfolding owned_by
owned_playlist user id = do playlist ← Rows.get_playlist id; owned_by user playlist

abbrev pub given_or : Option String → String → String
given_or none old = old
given_or (some new) old = new

unfoldable pub update_playlist :
    Time → Uuid → Uuid → Option String → Option String → Option String → Action Playlist
unfolding owned_playlist
update_playlist now user id title description visibility = do
  old ← owned_playlist user id
  let playlist = record old {
    title = given_or title old.title;
    description = given_or description old.description;
    visibility = given_or visibility old.visibility;
  }
  give (validate_playlist playlist)
  Rows.update_playlist now playlist
  Rows.get_playlist id

unfoldable pub delete_playlist : Uuid → Uuid → Action Unit
unfolding owned_playlist
delete_playlist user id = do owned_playlist user id; Rows.delete_playlist id

unfoldable pub list_my_playlists : Uuid → ℕ → ℕ → Action (List Playlist × ℕ)
list_my_playlists user limit offset = do
  playlists ← Rows.list_playlists_by_user user limit offset
  total ← Rows.count_playlists_by_user user
  pure (playlists, total)

unfoldable pub add_playlist_video : Time → Uuid → Uuid → Uuid → Uuid → Action PlaylistVideo
unfolding owned_playlist
add_playlist_video now fresh user playlist video = do
  owned_playlist user playlist
  get_by_id video
  Rows.add_playlist_video now fresh playlist video

unfoldable pub remove_playlist_video : Time → Uuid → Uuid → Uuid → Action Unit
unfolding owned_playlist
remove_playlist_video now user playlist video = do
  owned_playlist user playlist
  Rows.remove_playlist_video now playlist video

unfoldable pub list_playlist_videos : Option Uuid → Uuid → ℕ → ℕ → Action (List PlaylistItem × ℕ)
unfolding get_playlist
list_playlist_videos viewer playlist limit offset = do
  get_playlist viewer playlist
  items ← Rows.list_playlist_videos playlist limit offset
  total ← Rows.count_playlist_videos playlist
  pure (items, total)
