-- ===== src/Social/Playlists/Order.antt =====
-- A playlist is a list of videos: what AddPlaylistVideo and RemovePlaylistVideo of
-- internal/service/social_service.go make of it, through the positions of its rows.
use video_streaming_service.Common.{
  ℕ, ◌≤◌, ◌<◌, ◌≡◌, ◌≢◌, ◌∙◌, inl, inr, refl, ap, subst, Bool, true, false, List, [], ◌∷◌, ◌++◌,
  map, none, Result, Error, ok, err, All, arith, Bool-cases, if◌then◌else◌,
}
use video_streaming_service.Common.Rows.{find, filter, remove_first}
use video_streaming_service.Common.Rows.Sorting.{sort-append}
use video_streaming_service.Domain.User.{Uuid, Time}
use video_streaming_service.Domain.Social.{PlaylistVideo}
use video_streaming_service.Postgres.{World, Action}
use video_streaming_service.Postgres.Calls.{◌>>=◌, round_trip, transaction, pure, raise, >>=-cases}
use video_streaming_service.Postgres.Videos.{get_by_id}
use video_streaming_service.Social.Playlists.{
  owned_playlist, owned_by, add_playlist_video, remove_playlist_video,
}
use video_streaming_service.Postgres.Playlists as Rows
use video_streaming_service.Postgres.Playlists.{
  lock_playlist, belongs, is_entry, next_position, in_order, by_position, append_video, leave,
}

-- The videos of a playlist in the order in which it plays them.
abbrev pub videos_of : Uuid → List PlaylistVideo → List Uuid
videos_of playlist rows = map (λ x. x.video_id) (in_order playlist rows)

filter-append :
    (p : PlaylistVideo → Bool) (xs : List PlaylistVideo) (x : PlaylistVideo)
    → filter p (xs ++ x ∷ []) ≡ (if p x then filter p xs ++ x ∷ [] else filter p xs)
unfolding filter
filter-append p [] x = ground arith
filter-append p (y ∷ ys) x = ground (arith, filter-append p ys x)

-- The next position is beyond all those of the playlist.
next_position-beyond :
    (playlist : Uuid) (rows : List PlaylistVideo) (n : ℕ)
    → next_position playlist rows ≤ n
    → All (λ y. y.position < n) (filter (belongs playlist) rows)
unfolding next_position filter
next_position-beyond playlist [] n h = tt
next_position-beyond playlist (x ∷ xs) n h = elim (Bool-cases (belongs playlist x)) [
  | inl here ↦
      rw here
        (ground (arith, here, h), next_position-beyond playlist xs n (ground (arith, here, h)))
  | inr elsewhere ↦ rw elsewhere (next_position-beyond playlist xs n (ground (arith, elsewhere, h)))
]

map-append :
    (xs : List PlaylistVideo) (x : PlaylistVideo)
    → map (λ y. y.video_id) (xs ++ x ∷ []) ≡ map (λ y. y.video_id) xs ++ x.video_id ∷ []
map-append [] x = refl
map-append (y ∷ ys) x = ap (λ r. y.video_id ∷ r) (map-append ys x)

-- The insertion of a row at the next position.
pub append-videos_of :
    (playlist : Uuid) (rows : List PlaylistVideo) (x : PlaylistVideo)
    → x.playlist_id ≡ playlist
    → x.position ≡ next_position playlist rows
    → videos_of playlist (rows ++ x ∷ []) ≡ videos_of playlist rows ++ x.video_id ∷ []
unfolding in_order
append-videos_of playlist rows x mine last =
    let here : belongs playlist x ≡ true = ground (arith, mine) in
    let beyond = next_position-beyond playlist rows x.position (ground (arith, last)) in
    let kept : filter (belongs playlist) (rows ++ x ∷ [])
        ≡ filter (belongs playlist) rows ++ x ∷ [] =
      filter-append (belongs playlist) rows x ∙ rw here refl in
    rw (kept, sort-append (λ y. y.position) (filter (belongs playlist) rows) x beyond)
      (map-append (in_order playlist rows) x)

-- The rows of the other playlists do not count.
pub other-videos_of :
    (playlist : Uuid) (rows : List PlaylistVideo) (x : PlaylistVideo)
    → x.playlist_id ≢ playlist
    → videos_of playlist (rows ++ x ∷ []) ≡ videos_of playlist rows
unfolding in_order
other-videos_of playlist rows x other =
    let apart : belongs playlist x ≡ false = ground (arith, other) in
    rw (filter-append (belongs playlist) rows x, apart) refl

-- What a statement makes of the table, by its answer: nothing, or what the answer says.
abbrev pub Answers :
    {A : Type 0}
    → (A → List PlaylistVideo → List PlaylistVideo → Type 0)
    → Result A × World
    → List PlaylistVideo
    → Type 0
Answers Done (ok a, w) rows = Done a rows w.social.playlist_videos
Answers Done (err e, w) rows = w.social.playlist_videos ≡ rows

-- A part that leaves the social tables may come first.
after_reading :
    {A B : Type 0} (Done : B → List PlaylistVideo → List PlaylistVideo → Type 0) (m : Action A)
    (f : A → Action B) (w : World)
    → (m w).1.social ≡ w.social
    → ((a : A) (v : World) → Answers Done (f a v) v.social.playlist_videos)
    → Answers Done ((m >>= f) w) w.social.playlist_videos
after_reading Done m f w same hf = elim (>>=-cases m f w) [
  | inl (e, stops) ↦ rw stops (ap (λ t. t.playlist_videos) same)
  | inr (a, goes) ↦
      rw goes (subst (λ t. Answers Done (f a (m w).1) t.playlist_videos) same (hf a (m w).1))
]

owned_playlist-social :
    (user id : Uuid) (w : World) → (owned_playlist user id w).1.social ≡ w.social
unfolding owned_playlist Rows.get_playlist owned_by ◌>>=◌ round_trip pure raise
owned_playlist-social user id w = ground arith

get_by_id-social : (id : Uuid) (w : World) → (get_by_id id w).1.social ≡ w.social
unfolding get_by_id round_trip
get_by_id-social id w = ground arith

-- A row for the video was inserted, at the next position.
pub record IsAppended (i v : Uuid) (x : PlaylistVideo) (rows rows' : List PlaylistVideo)
    : Type 0 where
  pub grown : rows' ≡ rows ++ x ∷ []
  pub mine : x.playlist_id ≡ i
  pub same_video : x.video_id ≡ v
  pub last : x.position ≡ next_position i rows
  pub new : find (is_entry i v) rows ≡ none

-- An answer is a value or an error.
Answers-intro :
    {A : Type 0} (Done : A → List PlaylistVideo → List PlaylistVideo → Type 0)
    (o : Result A × World) (rows : List PlaylistVideo)
    → ((a : A) → o.0 ≡ ok a → Done a rows o.1.social.playlist_videos)
    → ((e : Error) → o.0 ≡ err e → o.1.social.playlist_videos ≡ rows)
    → Answers Done o rows
Answers-intro Done (ok a, w) rows hok herr = hok a refl
Answers-intro Done (err e, w) rows hok herr = herr e refl

append-Answers :
    (now : Time) (fresh i v : Uuid) (w : World)
    → Answers (IsAppended i v) (Rows.add_playlist_video now fresh i v w) w.social.playlist_videos
unfolding Rows.add_playlist_video transaction lock_playlist append_video ◌>>=◌ round_trip
append-Answers now fresh i v w =
    Answers-intro (IsAppended i v) (Rows.add_playlist_video now fresh i v w)
      w.social.playlist_videos
      (λ x done. record {
        grown = ground arith;
        mine = ground arith;
        same_video = ground arith;
        last = ground arith;
        new = ground arith;
      })
      (λ e failed. ground arith)

-- The row of the video was removed.
abbrev pub IsRemoved : Uuid → Uuid → Unit {0} → List PlaylistVideo → List PlaylistVideo → Type 0
IsRemoved i v _ rows rows' = rows' ≡ remove_first (is_entry i v) rows

remove-Answers :
    (now : Time) (i v : Uuid) (w : World)
    → Answers (IsRemoved i v) (Rows.remove_playlist_video now i v w) w.social.playlist_videos
unfolding Rows.remove_playlist_video leave round_trip
remove-Answers now i v w =
    Answers-intro (IsRemoved i v) (Rows.remove_playlist_video now i v w) w.social.playlist_videos
      (λ _ done. ground arith) (λ e failed. ground arith)

-- The same for the calls of the service.
pub add_playlist_video-Answers :
    (now : Time) (fresh user i v : Uuid) (w : World)
    → Answers (IsAppended i v) (add_playlist_video now fresh user i v w) w.social.playlist_videos
unfolding add_playlist_video
add_playlist_video-Answers now fresh user i v w =
    after_reading (IsAppended i v) _ _ w (owned_playlist-social user i w) (λ _ w1.
      after_reading (IsAppended i v) _ _ w1 (get_by_id-social v w1)
        (λ _ w2. append-Answers now fresh i v w2))

pub remove_playlist_video-Answers :
    (now : Time) (user i v : Uuid) (w : World)
    → Answers (IsRemoved i v) (remove_playlist_video now user i v w) w.social.playlist_videos
unfolding remove_playlist_video
remove_playlist_video-Answers now user i v w =
    after_reading (IsRemoved i v) _ _ w (owned_playlist-social user i w)
      (λ _ w1. remove-Answers now i v w1)
