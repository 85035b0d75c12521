-- ===== src/Examples/Social.antt =====
-- The social features at work (internal/service/social_service.go).
use video_streaming_service.Common.{
  ◌≡◌, refl, pos, true, false, List, [], ◌∷◌, some, none, arith, ◌==◌, if◌then◌else◌,
}
use video_streaming_service.Common.Rows.{find, count, Keys.lookup}
use video_streaming_service.Domain.User.{User, Time, draft_user, is_deleted}
use video_streaming_service.Domain.Video.{Video, draft_video, is_owned_by}
use video_streaming_service.Domain.Social.{Comment, Playlist, PlaylistVideo, validate_subscription}
use video_streaming_service.Postgres.{World}
use video_streaming_service.Postgres.Calls.{◌>>=◌, round_trip, pure, give, attempt}
use video_streaming_service.Postgres.Videos.{get_by_id}
use video_streaming_service.Postgres.Moderated.{get_user}
use video_streaming_service.Postgres.Subscriptions as Subscribed
use video_streaming_service.Social.{notify}
use video_streaming_service.Postgres.Comments as Rows
use video_streaming_service.Postgres.Comments.{comment_id}
use video_streaming_service.Social.Requests.{Request, serve_all}
use video_streaming_service.Social.Requests.{
  set_like, create_comment, subscribe, create_playlist, add_playlist_video,
}
use video_streaming_service.Social.Comments as Comments
use video_streaming_service.Social.Comments.Deletion.{MayDelete, delete_comment-MayDelete}
use video_streaming_service.Social.Subscriptions as Subscriptions
use video_streaming_service.Social.Subscriptions.Repeated.{subscribe_again}
use video_streaming_service.Social.Playlists.Privacy.{
  deleting, try_on, without_playlist, try_on_hidden,
}
use video_streaming_service.Social.Playlists.Contents.{
  append, Edits, IsKeyed, edit_playlist, edit_playlist-Edits,
}
use video_streaming_service.Social.Counters.Statements.{IsCounted}
use video_streaming_service.Social.Counters.Requests.{serve_all-IsCounted}
use video_streaming_service.Examples.Fixtures.{ann, unused}

-- A video of ann's, and a second user.
abbrev clip : Video
unfolding draft_video
clip = record (draft_video 3 1000 "Clip" "" "clip.mp4" "raw/3.mp4" "video/mp4" (pos 2048)) {
  user_id = some 7;
}

abbrev bob : User
unfolding draft_user
bob = draft_user (λ s. s) 8 5 "bob" "bob@example.org" "hash:Secret-13" "user"

-- A comment of bob's on the video, a private playlist of ann's with the video, and nothing else.
abbrev comment : Comment
comment = record {
  id = 50;
  video_id = 3;
  user_id = 8;
  parent_id = none;
  content = "First!";
  like_count = pos 0;
  reply_count = pos 0;
  pinned = false;
  edited_at = none;
  created_at = 5;
  updated_at = 5;
  deleted_at = none;
}

abbrev playlist : Playlist
playlist = record {
  id = 60;
  user_id = 7;
  title = "Mine";
  description = "";
  visibility = "private";
  video_count = pos 1;
  created_at = 6;
  updated_at = 6;
}

abbrev entry : PlaylistVideo
entry = record { id = 61; playlist_id = 60; video_id = 4; position = 0; added_at = 6 }

abbrev start : World
start = record {
  videos = λ j. if j == 3 then some clip else none;
  users = λ j. if j == 7 then some ann else if j == 8 then some bob else none;
  reports = [];
  social = unused;
  faults = [];
}

abbrev world : World
world = record start {
  social = record unused {
    comments = comment ∷ [];
    playlists = playlist ∷ [];
    playlist_videos = entry ∷ [];
  };
}

counted : IsCounted start
unfolding lookup find count draft_video
counted = (λ id. ground arith, λ id. ground arith, λ id. refl, λ id. refl, λ id. refl)

abbrev requests : List (Time × Request)
requests =
    (10, set_like 70 8 3 true)
    ∷ (11, create_comment 71 72 8 3 none "First!")
    ∷ (12, subscribe 73 74 8 7)
    ∷ (13, create_playlist 75 7 "Mine" "" "private")
    ∷ (14, add_playlist_video 76 7 75 3)
    ∷ []

serve_all-IsCounted_example : IsCounted (serve_all requests start)
serve_all-IsCounted_example = serve_all-IsCounted requests start counted

delete_comment-MayDelete_example :
    (c : Comment) × (lookup comment_id 50 world.social.comments ≡ some c)
    × (c.deleted_at ≡ none)
    × MayDelete 7 false c world
unfolding Comments.delete_comment ◌>>=◌ Rows.get_comment round_trip lookup find pure get_by_id
    is_owned_by clip Rows.soft_delete_comment
delete_comment-MayDelete_example = delete_comment-MayDelete 20 7 false 50 world refl

keyed : IsKeyed world.social.playlist_videos
unfolding count
keyed i v = ground arith

edit_playlist-Edits_example :
    let (answer, w') = edit_playlist 21 7 60 (append 80 3) world in
    Edits 60 (append 80 3) answer world.social.playlist_videos w'.social.playlist_videos
edit_playlist-Edits_example = edit_playlist-Edits 21 7 60 (append 80 3) world keyed

try_on_hidden_example :
    ((try_on 22 8 60 deleting world).0 ≡ (try_on 22 8 60 deleting (without_playlist 60 world)).0)
    × ((try_on 22 8 60 deleting world).1.social ≡ world.social)
unfolding lookup find
try_on_hidden_example = try_on_hidden 22 8 60 deleting world playlist refl refl (λ e. cc e)

subscribe_again_example :
    let w' = (Subscriptions.subscribe 23 81 82 7 8 start).1 in
    (Subscriptions.subscribe 24 83 84 7 8 w').1.social ≡ w'.social
unfolding Subscriptions.subscribe ◌>>=◌ get_user round_trip is_deleted give validate_subscription
    Subscribed.create_subscription Subscribed.subscribe find lookup notify attempt bob
subscribe_again_example = subscribe_again 23 24 81 82 83 84 7 8 start refl
