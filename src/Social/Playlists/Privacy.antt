-- ===== src/Social/Playlists/Privacy.antt =====
-- A private playlist does not show (internal/service/social_service.go).
use video_streaming_service.Common.{
  ℕ, ◌≡◌, ◌≢◌, refl, ap, sym, ◌∙◌, inl, inr, true, false, Option, none, some, String, str_eq, err,
  Error, database_error, playlist_not_found, arith,
}
use video_streaming_service.Common.Rows.Keys.{lookup, erase, lookup-erase}
use video_streaming_service.Domain.User.{Uuid, Time}
use video_streaming_service.Domain.Video.{is_id}
use video_streaming_service.Domain.Social.{Playlist}
use video_streaming_service.Postgres.{World, Action}
use video_streaming_service.Postgres.Calls.{
  ◌>>=◌, ◌>>◌, pure, raise, round_trip, fault_cases, >>=-eq-err,
}
use video_streaming_service.Postgres.Playlists as Rows
use video_streaming_service.Postgres.Playlists.{playlist_id, with_playlists}
use video_streaming_service.Social.Playlists.{
  visible_to, owned_by, get_playlist, owned_playlist, update_playlist, delete_playlist,
  add_playlist_video, remove_playlist_video, list_playlist_videos,
}

-- What one may try on a playlist: to look at it without signing in, and whatever a user may.
pub data Attempt : Type 0 where
  browsing reading : Attempt
  listing : ℕ → ℕ → Attempt
  updating : Option String → Option String → Option String → Attempt
  deleting : Attempt
  adding : Uuid → Uuid → Attempt
  removing : Uuid → Attempt

unfoldable pub try_on : Time → Uuid → Uuid → Attempt → Action Unit
try_on now user id browsing = get_playlist none id >> pure tt
try_on now user id reading = get_playlist (some user) id >> pure tt
try_on now user id (listing limit offset) =
    list_playlist_videos (some user) id limit offset >> pure tt
try_on now user id (updating title description visibility) =
    update_playlist now user id title description visibility >> pure tt
try_on now user id deleting = delete_playlist user id
try_on now user id (adding fresh video) = add_playlist_video now fresh user id video >> pure tt
try_on now user id (removing video) = remove_playlist_video now user id video

-- The world without the playlist.
abbrev pub without_playlist : Uuid → World → World
without_playlist id w = with_playlists (erase playlist_id id w.social.playlists) w

abbrev IsHidden : Uuid → Uuid → World → Type 0
IsHidden user id w =
    (p : Playlist) × (lookup playlist_id id w.social.playlists ≡ some p)
    × (p.visibility ≡ "private")
    × (p.user_id ≢ user)

-- Reading a playlist fails in the same way where it is hidden and where it is not there.
abbrev FailsAlike : {A : Type 0} → Action A → Uuid → World → Type 0
FailsAlike m id w =
    (e : Error) × ((m w).0 ≡ err e)
    × ((m (without_playlist id w)).0 ≡ err e)
    × ((m w).1.social ≡ w.social)

module _ (user id : Uuid) (w : World) (hidden : IsHidden user id w) where
  get_playlist-FailsAlike :
      (viewer : Option Uuid)
      → ((p : Playlist) → p.user_id ≢ user → is_id viewer p.user_id ≡ false)
      → FailsAlike (get_playlist viewer id) id w
  unfolding get_playlist Rows.get_playlist visible_to ◌>>=◌ round_trip raise pure
  get_playlist-FailsAlike viewer stranger =
      let (p, found, secret, other) = hidden in
      let private : str_eq p.visibility "private" ≡ true = ap (λ v. str_eq v "private") secret in
      let gone = lookup-erase playlist_id id id w.social.playlists in
      let apart = stranger p other in
      elim (fault_cases w.faults) [
        | inl (rest, lost) ↦
            (database_error, ground (arith, lost), ground (arith, lost), ground (arith, lost))
        | inr (inl none_left) ↦ (
          playlist_not_found,
          ground (arith, none_left, found, private, apart),
          ground (arith, none_left, gone),
          ground (arith, none_left, found, private, apart),
        )
        | inr (inr (rest, kept)) ↦ (
          playlist_not_found,
          ground (arith, kept, found, private, apart),
          ground (arith, kept, gone),
          ground (arith, kept, found, private, apart),
        )
      ]

  owned_playlist-FailsAlike : FailsAlike (owned_playlist user id) id w
  unfolding owned_playlist Rows.get_playlist owned_by ◌>>=◌ round_trip raise pure
  owned_playlist-FailsAlike =
      let (p, found, secret, other) = hidden in
      let private : str_eq p.visibility "private" ≡ true = ap (λ v. str_eq v "private") secret in
      let gone = lookup-erase playlist_id id id w.social.playlists in
      elim (fault_cases w.faults) [
        | inl (rest, lost) ↦
            (database_error, ground (arith, lost), ground (arith, lost), ground (arith, lost))
        | inr (inl none_left) ↦ (
          playlist_not_found,
          ground (arith, none_left, found, private, other),
          ground (arith, none_left, gone),
          ground (arith, none_left, found, private, other),
        )
        | inr (inr (rest, kept)) ↦ (
          playlist_not_found,
          ground (arith, kept, found, private, other),
          ground (arith, kept, gone),
          ground (arith, kept, found, private, other),
        )
      ]

-- What follows a failure does not run.
then-FailsAlike :
    {A B : Type 0} (m : Action A) (f : A → Action B) (id : Uuid) (w : World)
    → FailsAlike m id w
    → FailsAlike (m >>= f) id w
then-FailsAlike m f id w (e, here, there, same) = (
  e,
  ap (λ o. o.0) (>>=-eq-err m f w e here),
  ap (λ o. o.0) (>>=-eq-err m f (without_playlist id w) e there),
  ap (λ o. o.1.social) (>>=-eq-err m f w e here) ∙ same,
)

try_on-FailsAlike :
    (now : Time) (user id : Uuid) (a : Attempt) (w : World)
    → IsHidden user id w
    → FailsAlike (try_on now user id a) id w
unfolding try_on list_playlist_videos update_playlist delete_playlist add_playlist_video
    remove_playlist_video
try_on-FailsAlike now user id browsing w h =
    then-FailsAlike _ _ id w (get_playlist-FailsAlike user id w h none (λ p other. refl))
try_on-FailsAlike now user id reading w h =
    then-FailsAlike _ _ id w
      (get_playlist-FailsAlike user id w h (some user) (λ p other. ground (arith, other)))
try_on-FailsAlike now user id (listing limit offset) w h = then-FailsAlike _ _ id w (
    then-FailsAlike _ _ id w
      (get_playlist-FailsAlike user id w h (some user) (λ p other. ground (arith, other))))
try_on-FailsAlike now user id (updating title description visibility) w h =
    then-FailsAlike _ _ id w (then-FailsAlike _ _ id w (owned_playlist-FailsAlike user id w h))
try_on-FailsAlike now user id deleting w h =
    then-FailsAlike _ _ id w (owned_playlist-FailsAlike user id w h)
try_on-FailsAlike now user id (adding fresh video) w h =
    then-FailsAlike _ _ id w (then-FailsAlike _ _ id w (owned_playlist-FailsAlike user id w h))
try_on-FailsAlike now user id (removing video) w h =
    then-FailsAlike _ _ id w (owned_playlist-FailsAlike user id w h)

-- Whatever a user tries on a private playlist of somebody else, or an anonymous visitor, is answered as if
-- the playlist did not exist, and changes none of the social tables.
pub try_on_hidden :
    (now : Time) (user id : Uuid) (a : Attempt) (w : World) (p : Playlist)
    → lookup playlist_id id w.social.playlists ≡ some p
    → p.visibility ≡ "private"
    → p.user_id ≢ user
    → ((try_on now user id a w).0 ≡ (try_on now user id a (without_playlist id w)).0)
      × ((try_on now user id a w).1.social ≡ w.social)
try_on_hidden now user id a w p found private other =
    let (e, here, there, same) = try_on-FailsAlike now user id a w (p, found, private, other) in
    (here ∙ sym there, same)
