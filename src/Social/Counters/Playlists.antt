-- ===== src/Social/Counters/Playlists.antt =====
-- playlists.video_count against the rows of playlist_videos
-- (internal/repository/postgres/social_repository.go).
use video_streaming_service.Common.{
  pos, suc_int, pred_int, ◌≡◌, refl, inl, inr, Bool, true, not, ◌||◌, List, [], ◌∷◌, ◌++◌, Option,
  none, some, arith, Bool-cases, Option-cases, ltb, ◌==◌, if◌then◌else◌,
}
use video_streaming_service.Common.Rows.{
  find, count, without, remove_first, count-append, count-remove_first,
}
use video_streaming_service.Common.Rows.Keys.{
  lookup, write, lookup-write, lookup-write_same, lookup-erase, lookup-append,
}
use video_streaming_service.Domain.User.{Uuid, Time, is_some}
use video_streaming_service.Domain.Social.{Playlist, PlaylistVideo}
use video_streaming_service.Postgres.{World}
use video_streaming_service.Postgres.Calls.{Keeps, bind-Keeps, round_trip-Keeps, transaction-Keeps}
use video_streaming_service.Postgres.Playlists.{
  playlist_id, belongs, is_entry, accepts_playlist, fits_playlist, leave, create_playlist,
  update_playlist, delete_playlist, lock_playlist, append_video, next_position, add_playlist_video,
  remove_playlist_video, with_playlist_videos, with_playlists,
}
use video_streaming_service.Social.Counters.Tally.{tallies, tallies_same}

-- Every playlist's counter is the number of its videos.
abbrev pub PlaylistsCounted : World → Type 0
PlaylistsCounted w =
    (id : Uuid)
    → tallies (λ p. p.video_count) (lookup playlist_id id w.social.playlists)
        (count (belongs id) w.social.playlist_videos) (count (belongs id) w.social.playlist_videos)
      ≡ true

pub create_playlist-PlaylistsCounted : (p : Playlist) → Keeps PlaylistsCounted (create_playlist p)
unfolding create_playlist
create_playlist-PlaylistsCounted p =
    round_trip-Keeps _ _ (λ w fs h. h)
      (λ w h. elim (Bool-cases (accepts_playlist w p)) [
        | inr bad ↦ rw bad h
        | inl good ↦ rw good (λ id.
            elim (Option-cases (lookup playlist_id p.id w.social.playlists)) [
              | inl e ↦ ground (
                arith,
                h id,
                h p.id,
                e,
                lookup-append playlist_id id w.social.playlists (record p { video_count = pos 0 })
                    e,
              )
              | inr (q, e) ↦ absurd (ground (arith, good, e))
            ])
      ])

-- A change of a playlist that leaves its id and its counter.
write-PlaylistsCounted :
    (f : Playlist → Playlist)
    → ((p : Playlist) → (f p).id ≡ p.id)
    → ((p : Playlist) → (f p).video_count ≡ p.video_count)
    → (i : Uuid) (w : World) → PlaylistsCounted w
    → PlaylistsCounted (with_playlists (write playlist_id i f w.social.playlists) w)
write-PlaylistsCounted f same kept i w h id =
    tallies_same (λ p. p.video_count) _ _ _ _
      (lookup-write_same playlist_id (λ p. p.video_count) f same kept i id w.social.playlists)
      (h id)

pub update_playlist-PlaylistsCounted :
    (now : Time) (p : Playlist) → Keeps PlaylistsCounted (update_playlist now p)
unfolding update_playlist
update_playlist-PlaylistsCounted now p =
    round_trip-Keeps _ _ (λ w fs h. h)
      (λ w h. elim (Bool-cases (not (is_some (lookup playlist_id p.id w.social.playlists)))) [
        | inl missing ↦ rw missing h
        | inr there ↦ elim (Bool-cases (not (fits_playlist p))) [
          | inl bad ↦ rw (there, bad) h
          | inr good ↦ rw (there, good) (write-PlaylistsCounted _ (λ q. refl) (λ q. refl) p.id w h)
        ]
      ])

count_belongs-without :
    (i j : Uuid) (rows : List PlaylistVideo)
    → count (belongs j) (without (belongs i) rows) ≡ (if i == j then 0 else count (belongs j) rows)
unfolding count without
count_belongs-without i j [] = ground arith
count_belongs-without i j (x ∷ xs) = ground (arith, count_belongs-without i j xs)

pub delete_playlist-PlaylistsCounted : (i : Uuid) → Keeps PlaylistsCounted (delete_playlist i)
unfolding delete_playlist
delete_playlist-PlaylistsCounted i =
    round_trip-Keeps _ _ (λ w fs h. h)
      (λ w h. elim (Bool-cases (is_some (lookup playlist_id i w.social.playlists))) [
        | inr missing ↦ rw missing h
        | inl there ↦ rw there (λ id. ground (
          arith,
          h id,
          lookup-erase playlist_id i id w.social.playlists,
          count_belongs-without i id w.social.playlist_videos,
        ))
      ])

lock_playlist-PlaylistsCounted : (i : Uuid) → Keeps PlaylistsCounted (lock_playlist i)
unfolding lock_playlist
lock_playlist-PlaylistsCounted i =
    round_trip-Keeps _ _ (λ w fs h. h)
      (λ w h. elim (Bool-cases (is_some (lookup playlist_id i w.social.playlists))) [
        | inr missing ↦ rw missing h
        | inl there ↦ rw there h
      ])

-- The trigger's step and the rows that call for it.
module _ (now : Time) (w : World) (h : PlaylistsCounted w) where
  enter-PlaylistsCounted :
      (x : PlaylistVideo)
      → is_some (lookup playlist_id x.playlist_id w.social.playlists) ≡ true
      → PlaylistsCounted
          (with_playlist_videos now suc_int x.playlist_id (w.social.playlist_videos ++ x ∷ []) w)
  enter-PlaylistsCounted x there id = ground (
    arith,
    h id,
    there,
    count-append (belongs id) w.social.playlist_videos x,
    lookup-write playlist_id
        (λ p. record p { video_count = suc_int p.video_count; updated_at = now }) (λ p. refl)
        x.playlist_id id w.social.playlists,
  )

  leave-PlaylistsCounted :
      (p : PlaylistVideo → Bool) (x : PlaylistVideo)
      → find p w.social.playlist_videos ≡ some x
      → PlaylistsCounted (
          with_playlist_videos now pred_int x.playlist_id
            (remove_first p w.social.playlist_videos)
            w)
  leave-PlaylistsCounted p x e id = ground (
    arith,
    h id,
    count-remove_first (belongs id) p w.social.playlist_videos x e,
    lookup-write playlist_id
        (λ p. record p { video_count = pred_int p.video_count; updated_at = now }) (λ p. refl)
        x.playlist_id id w.social.playlists,
  )

append_video-PlaylistsCounted :
    (now : Time) (fresh i video : Uuid) → Keeps PlaylistsCounted (append_video now fresh i video)
unfolding append_video
append_video-PlaylistsCounted now fresh i video =
    round_trip-Keeps _ _ (λ w fs h. h)
      (λ w h.
        let rows = w.social.playlist_videos in
        let refers =
          not (is_some (w.videos video))
          || not (is_some (lookup playlist_id i w.social.playlists)) in
        elim (Bool-cases (ltb 2147483647 (next_position i rows))) [
          | inl full ↦ rw full h
          | inr room ↦
              elim (Bool-cases (
                is_some (lookup (λ x. x.id) fresh rows)
                || is_some (find (is_entry i video) rows))) [
                  | inl twice ↦ rw (room, twice) h
                  | inr new ↦ elim (Bool-cases refers) [
                    | inl broken ↦ rw (room, new, broken) h
                    | inr fine ↦
                        rw (room, new, fine)
                          (enter-PlaylistsCounted now w h _ (ground (arith, fine)))
                  ]
                ]
        ])

pub add_playlist_video-PlaylistsCounted :
    (now : Time) (fresh i video : Uuid)
    → Keeps PlaylistsCounted (add_playlist_video now fresh i video)
unfolding add_playlist_video
add_playlist_video-PlaylistsCounted now fresh i video =
    transaction-Keeps _ (λ w fs h. h)
      (bind-Keeps _ _ (lock_playlist-PlaylistsCounted i)
        (λ _. append_video-PlaylistsCounted now fresh i video))

drop-PlaylistsCounted :
    (now : Time) (i video : Uuid) (row : Option PlaylistVideo) (w : World)
    → find (is_entry i video) w.social.playlist_videos ≡ row
    → PlaylistsCounted w
    → PlaylistsCounted (leave now i video row w).1
unfolding leave
drop-PlaylistsCounted now i video none w e h = h
drop-PlaylistsCounted now i video (some x) w e h =
    leave-PlaylistsCounted now w h (is_entry i video) x e

pub remove_playlist_video-PlaylistsCounted :
    (now : Time) (i video : Uuid) → Keeps PlaylistsCounted (remove_playlist_video now i video)
unfolding remove_playlist_video
remove_playlist_video-PlaylistsCounted now i video =
    round_trip-Keeps _ _ (λ w fs h. h) (λ w. drop-PlaylistsCounted now i video _ w refl)
