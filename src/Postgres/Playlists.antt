-- ===== src/Postgres/Playlists.antt =====
-- internal/repository/postgres/social_repository.go: the playlists and their videos, with the triggers
-- on their tables (migrations/000009_add_social_features.up.sql). `now` is the database's NOW().
use video_streaming_service.Common.{
  ℕ, ℤ, pos, suc, suc_int, pred_int, Bool, not, ◌&&◌, ◌||◌, List, [], ◌∷◌, ◌++◌, Option, none, some,
  length, ok, err, database_error, playlist_not_found, playlist_video_not_found,
  video_already_in_playlist, ltb, leb, ◌==◌, if◌then◌else◌,
}
use video_streaming_service.Common.Text.{codes}
use video_streaming_service.Common.Rows.{
  filter, find, count, sort, page, remove_first, without, Keys.lookup, Keys.write, Keys.erase,
}
use video_streaming_service.Domain.User.{Uuid, Time, is_some}
use video_streaming_service.Domain.Video.{Video}
use video_streaming_service.Domain.Social.{Playlist, PlaylistVideo, PlaylistItem, valid_visibility}
use video_streaming_service.Postgres.{World, Action}
use video_streaming_service.Postgres.Calls.{◌>>◌, round_trip, transaction}

abbrev pub playlist_id : Playlist → Uuid
playlist_id p = p.id

abbrev pub with_playlists : List Playlist → World → World
with_playlists playlists w = record w { social = record w.social { playlists = playlists } }

-- `VARCHAR(255)` and the CHECK on the visibility
abbrev pub fits_playlist : Playlist → Bool
fits_playlist p = leb (length (codes p.title)) 255 && valid_visibility p.visibility

abbrev pub accepts_playlist : World → Playlist → Bool
accepts_playlist w p =
    not (is_some (lookup playlist_id p.id w.social.playlists))
    && (is_some (w.users p.user_id) && fits_playlist p)

unfoldable pub create_playlist : Playlist → Action Unit
create_playlist p = round_trip database_error (λ w.
    if accepts_playlist w p
    then (ok tt, with_playlists (w.social.playlists ++ record p { video_count = pos 0 } ∷ []) w)
    else (err database_error, w))

playlist_or : Option Playlist → Action Playlist
playlist_or none w = (err playlist_not_found, w)
playlist_or (some p) w = (ok p, w)

unfoldable pub get_playlist : Uuid → Action Playlist
unfolding playlist_or
get_playlist id =
    round_trip database_error (λ w. playlist_or (lookup playlist_id id w.social.playlists) w)

unfoldable pub update_playlist : Time → Playlist → Action Unit
update_playlist now p = round_trip database_error (λ w.
    if not (is_some (lookup playlist_id p.id w.social.playlists))
    then (err playlist_not_found, w)
    else if not (fits_playlist p)
    then (err database_error, w)
    else (
      ok tt,
      with_playlists
          (write playlist_id p.id
            (λ q. record q {
              title = p.title;
              description = p.description;
              visibility = p.visibility;
              updated_at = now;
            })
            w.social.playlists)
          w,
    ))

abbrev pub belongs : Uuid → PlaylistVideo → Bool
belongs playlist x = x.playlist_id == playlist

-- With the row go its videos' rows (`ON DELETE CASCADE`).
unfoldable pub delete_playlist : Uuid → Action Unit
delete_playlist id = round_trip database_error (λ w.
    if is_some (lookup playlist_id id w.social.playlists)
    then (
      ok tt,
      record w {
        social = record w.social {
          playlists = erase playlist_id id w.social.playlists;
          playlist_videos = without (belongs id) w.social.playlist_videos;
        };
      },
    )
    else (err playlist_not_found, w))

abbrev pub recently_updated : Playlist → Playlist → Bool
recently_updated a b = leb b.updated_at a.updated_at

unfoldable pub list_playlists_by_user : Uuid → ℕ → ℕ → Action (List Playlist)
list_playlists_by_user user limit offset = round_trip database_error (λ w. (
  ok (
      page limit offset
        (sort recently_updated (filter (λ p. p.user_id == user) w.social.playlists))),
  w,
))

unfoldable pub count_playlists_by_user : Uuid → Action ℕ
count_playlists_by_user user =
    round_trip database_error (λ w. (ok (count (λ p. p.user_id == user) w.social.playlists), w))

-- UNIQUE(playlist_id, video_id)
abbrev pub is_entry : Uuid → Uuid → PlaylistVideo → Bool
is_entry playlist video x = x.playlist_id == playlist && x.video_id == video

-- `COALESCE(MAX(position), -1) + 1` over the rows of a playlist
unfoldable pub next_position : Uuid → List PlaylistVideo → ℕ
next_position playlist [] = 0
next_position playlist (x ∷ xs) =
    let rest = next_position playlist xs in
    if belongs playlist x && leb rest x.position then suc x.position else rest

-- The rows written, and `UPDATE playlists SET video_count = ...`
abbrev pub with_playlist_videos : Time → (ℤ → ℤ) → Uuid → List PlaylistVideo → World → World
with_playlist_videos now step playlist playlist_videos w = record w {
  social = record w.social {
    playlist_videos = playlist_videos;
    playlists =
        write playlist_id playlist
          (λ p. record p { video_count = step p.video_count; updated_at = now }) w.social.playlists;
  };
}

-- `SELECT id FROM playlists WHERE id = $1 FOR UPDATE`
unfoldable pub lock_playlist : Uuid → Action Unit
lock_playlist id = round_trip database_error (λ w.
    if is_some (lookup playlist_id id w.social.playlists)
    then (ok tt, w)
    else (err playlist_not_found, w))

-- The row goes to the next position, which has to fit an int32. A violation of a unique key is the
-- error of a video that is there already; the key of positions cannot be violated.
unfoldable pub append_video : Time → Uuid → Uuid → Uuid → Action PlaylistVideo
unfolding next_position
append_video now fresh playlist video = round_trip database_error (λ w.
    let rows = w.social.playlist_videos in
    let entry : PlaylistVideo = record {
      id = fresh;
      playlist_id = playlist;
      video_id = video;
      position = next_position playlist rows;
      added_at = now;
    } in
    if ltb 2147483647 entry.position
    then (err database_error, w)
    else if is_some (lookup (λ x. x.id) fresh rows) || is_some (find (is_entry playlist video) rows)
    then (err video_already_in_playlist, w)
    else if not (is_some (w.videos video))
        || not (is_some (lookup playlist_id playlist w.social.playlists))
    then (err database_error, w)
    else (ok entry, with_playlist_videos now suc_int playlist (rows ++ entry ∷ []) w))

unfoldable pub add_playlist_video : Time → Uuid → Uuid → Uuid → Action PlaylistVideo
unfolding lock_playlist append_video
add_playlist_video now fresh playlist video =
    transaction (do lock_playlist playlist; append_video now fresh playlist video)

unfoldable pub leave : Time → Uuid → Uuid → Option PlaylistVideo → Action Unit
leave now playlist video none w = (err playlist_video_not_found, w)
leave now playlist video (some old) w = (
  ok tt,
  with_playlist_videos now pred_int old.playlist_id
      (remove_first (is_entry playlist video) w.social.playlist_videos) w,
)

-- The positions of the others stay.
unfoldable pub remove_playlist_video : Time → Uuid → Uuid → Action Unit
unfolding leave
remove_playlist_video now playlist video =
    round_trip database_error
      (λ w. leave now playlist video (find (is_entry playlist video) w.social.playlist_videos) w)

abbrev pub by_position : PlaylistVideo → PlaylistVideo → Bool
by_position a b = leb a.position b.position

-- The rows of a playlist in their order.
unfoldable pub in_order : Uuid → List PlaylistVideo → List PlaylistVideo
in_order playlist rows = sort by_position (filter (belongs playlist) rows)

join_video : PlaylistVideo → Option Video → List PlaylistItem → List PlaylistItem
join_video x none rest = rest
join_video x (some v) rest =
    record { position = x.position; added_at = x.added_at; video = v } ∷ rest

unfoldable pub join_videos : World → List PlaylistVideo → List PlaylistItem
unfolding join_video
join_videos w [] = []
join_videos w (x ∷ xs) = join_video x (w.videos x.video_id) (join_videos w xs)

unfoldable pub list_playlist_videos : Uuid → ℕ → ℕ → Action (List PlaylistItem)
unfolding in_order join_videos
list_playlist_videos playlist limit offset =
    round_trip database_error (λ w.
      (ok (page limit offset (join_videos w (in_order playlist w.social.playlist_videos))), w))

unfoldable pub count_playlist_videos : Uuid → Action ℕ
count_playlist_videos playlist =
    round_trip database_error (λ w. (ok (count (belongs playlist) w.social.playlist_videos), w))
