-- ===== src/Social/Playlists/Contents.antt =====
-- A playlist against a plain list of videos (internal/service/social_service.go: AddPlaylistVideo,
-- RemovePlaylistVideo).
use video_streaming_service.Common.{
  ◌≤◌, ◌≡◌, ◌≢◌, ◌∙◌, inl, inr, refl, sym, ap, subst, Bool, true, false, List, [], ◌∷◌, ◌++◌, map,
  none, Result, Done, Error, ok, err, arith, ==_self, Bool-cases, ◌==◌, if◌then◌else◌,
}
use video_streaming_service.Common.Rows.{
  find, filter, count, without, remove_first, count-append, count-remove_first_le, count_unfound,
}
use video_streaming_service.Common.Rows.Sorting.{sort-without}
use video_streaming_service.Domain.User.{Uuid, Time}
use video_streaming_service.Domain.Social.{PlaylistVideo}
use video_streaming_service.Postgres.{World, Action}
use video_streaming_service.Postgres.Calls.{◌>>=◌, ◌>>◌, then_run, pure}
use video_streaming_service.Postgres.Playlists.{belongs, is_entry, in_order}
use video_streaming_service.Social.Playlists.{add_playlist_video, remove_playlist_video}
use video_streaming_service.Social.Playlists.Order.{
  videos_of, append-videos_of, other-videos_of, Answers, IsAppended, IsRemoved,
  add_playlist_video-Answers, remove_playlist_video-Answers,
}

-- UNIQUE(playlist_id, video_id)
abbrev pub IsKeyed : List PlaylistVideo → Type 0
IsKeyed rows = (i v : Uuid) → count (is_entry i v) rows ≤ 1

-- A key that no row has is free for a new row.
append-IsKeyed :
    (rows : List PlaylistVideo) (x : PlaylistVideo)
    → find (is_entry x.playlist_id x.video_id) rows ≡ none
    → IsKeyed rows
    → IsKeyed (rows ++ x ∷ [])
append-IsKeyed rows x free keyed i v = elim (Bool-cases (is_entry i v x)) [
  | inl hit ↦
      let here : x.playlist_id ≡ i = ground (arith, hit) in
      let this : x.video_id ≡ v = ground (arith, hit) in
      let unmet : count (is_entry i v) rows ≡ 0 =
        subst (λ j. count (is_entry j v) rows ≡ 0) here
          (subst (λ u. count (is_entry x.playlist_id u) rows ≡ 0) this
            (count_unfound (is_entry x.playlist_id x.video_id) rows free)) in
      ground (arith, hit, unmet, count-append (is_entry i v) rows x)
  | inr miss ↦ ground (arith, miss, keyed i v, count-append (is_entry i v) rows x)
]

remove-IsKeyed :
    (p : PlaylistVideo → Bool) (rows : List PlaylistVideo)
    → IsKeyed rows
    → IsKeyed (remove_first p rows)
remove-IsKeyed p rows keyed i v =
    ground (arith, keyed i v, count-remove_first_le (is_entry i v) p rows)

-- Where one row at most meets a condition, to remove the first is to remove all.
remove_first-eq-without :
    (p : PlaylistVideo → Bool) (rows : List PlaylistVideo)
    → count p rows ≤ 1
    → remove_first p rows ≡ without p rows
unfolding count remove_first without
remove_first-eq-without p [] h = refl
remove_first-eq-without p (x ∷ xs) h = elim (Bool-cases (p x)) [
  | inl hit ↦ rw hit (sym (unmet xs (ground (arith, hit, h))))
  | inr miss ↦ rw miss (ap (λ r. x ∷ r) (remove_first-eq-without p xs (ground (arith, miss, h))))
]
  where
    unmet : (ys : List PlaylistVideo) → count p ys ≡ 0 → without p ys ≡ ys
    unmet [] e = refl
    unmet (y ∷ ys) e = ground (arith, e, unmet ys)

filter-without :
    (i v j : Uuid) (rows : List PlaylistVideo)
    → filter (belongs j) (without (is_entry i v) rows) ≡ (
        if i == j
        then without (λ x. x.video_id == v) (filter (belongs j) rows)
        else filter (belongs j) rows)
unfolding filter without
filter-without i v j [] = ground arith
filter-without i v j (x ∷ xs) = ground (arith, filter-without i v j xs)

map-without :
    (v : Uuid) (rows : List PlaylistVideo)
    → map (λ x. x.video_id) (without (λ x. x.video_id == v) rows)
      ≡ without (λ u. u == v) (map (λ x. x.video_id) rows)
unfolding without
map-without v [] = refl
map-without v (x ∷ xs) = ground (arith, map-without v xs)

remove-videos_of :
    (i v : Uuid) (rows : List PlaylistVideo)
    → IsKeyed rows
    → videos_of i (remove_first (is_entry i v) rows) ≡ without (λ u. u == v) (videos_of i rows)
unfolding in_order
remove-videos_of i v rows keyed =
    let same : (i == i) ≡ true = ==_self i in
    rw
      (
        remove_first-eq-without (is_entry i v) rows (keyed i v),
        filter-without i v i rows,
        same,
        sort-without (λ x. x.position) (λ x. x.video_id == v) (filter (belongs i) rows),
      )
      (map-without v (in_order i rows))

remove_other-videos_of :
    (i v j : Uuid) (rows : List PlaylistVideo)
    → IsKeyed rows
    → j ≢ i
    → videos_of j (remove_first (is_entry i v) rows) ≡ videos_of j rows
unfolding in_order
remove_other-videos_of i v j rows keyed other =
    let apart : (i == j) ≡ false = ground (arith, other) in
    rw (remove_first-eq-without (is_entry i v) rows (keyed i v), filter-without i v j rows, apart)
      refl

-- What the owner does to the list: a video is put at its end or taken out.
pub data Edit : Type 0 where
  append : Uuid → Uuid → Edit
  drop : Uuid → Edit

-- The edit of the playlist, with the id that a new row gets.
unfoldable pub edit_playlist : Time → Uuid → Uuid → Edit → Action Unit
edit_playlist now user i (append fresh v) = add_playlist_video now fresh user i v >> pure tt
edit_playlist now user i (drop v) = remove_playlist_video now user i v

-- The edit of a list, if it is carried out.
unfoldable pub edit_list : Edit → Done → List Uuid → List Uuid
edit_list e (err _) vs = vs
edit_list (append fresh v) (ok _) vs = vs ++ v ∷ []
edit_list (drop v) (ok _) vs = without (λ u. u == v) vs

-- An edit with an answer turns the playlist as it turns the list, leaves the other playlists, and leaves
-- the key.
abbrev pub Edits : Uuid → Edit → Done → List PlaylistVideo → List PlaylistVideo → Type 0
Edits i e answer rows rows' =
    (videos_of i rows' ≡ edit_list e answer (videos_of i rows))
    × ((j : Uuid) → j ≢ i → videos_of j rows' ≡ videos_of j rows)
    × IsKeyed rows'

unchanged :
    (i : Uuid) (e : Edit) (x : Error) (rows rows' : List PlaylistVideo)
    → IsKeyed rows
    → rows' ≡ rows
    → Edits i e (err x) rows rows'
unfolding edit_list
unchanged i e x rows rows' keyed same = rw same (refl, λ j other. refl, keyed)

append-Edits :
    (i fresh v : Uuid) (o : Result PlaylistVideo × World) (rows : List PlaylistVideo)
    → IsKeyed rows
    → Answers (IsAppended i v) o rows
    → let o' = then_run o.0 (λ _. pure tt) o.1 in
      Edits i (append fresh v) o'.0 rows o'.1.social.playlist_videos
unfolding edit_list pure
append-Edits i fresh v (err e, w) rows keyed same =
    unchanged i (append fresh v) e rows w.social.playlist_videos keyed same
append-Edits i fresh v (ok x, w) rows keyed done = rw (done.grown) (
  append-videos_of i rows x done.mine done.last
      ∙ ap (λ u. videos_of i rows ++ u ∷ []) done.same_video,
  λ j other. other-videos_of j rows x (λ e. other (sym e ∙ done.mine)),
  append-IsKeyed rows x (rw (done.mine, done.same_video) done.new) keyed,
)

drop-Edits :
    (i v : Uuid) (o : Done × World) (rows : List PlaylistVideo)
    → IsKeyed rows
    → Answers (IsRemoved i v) o rows
    → Edits i (drop v) o.0 rows o.1.social.playlist_videos
unfolding edit_list
drop-Edits i v (err e, w) rows keyed same =
    unchanged i (drop v) e rows w.social.playlist_videos keyed same
drop-Edits i v (ok _, w) rows keyed removed = rw removed (
  remove-videos_of i v rows keyed,
  λ j other. remove_other-videos_of i v j rows keyed other,
  remove-IsKeyed (is_entry i v) rows keyed,
)

-- A playlist behaves as a plain list of videos: AddPlaylistVideo that succeeds puts the video at its end,
-- RemovePlaylistVideo that succeeds takes it out and keeps the order of the others, and an edit that
-- fails changes nothing, while no other playlist changes and no playlist gets a video twice, as none had.
pub edit_playlist-Edits :
    (now : Time) (user i : Uuid) (e : Edit) (w : World)
    → IsKeyed w.social.playlist_videos
    → let (answer, w') = edit_playlist now user i e w in
      Edits i e answer w.social.playlist_videos w'.social.playlist_videos
unfolding edit_playlist ◌>>=◌
edit_playlist-Edits now user i (append fresh v) w keyed =
    append-Edits i fresh v (add_playlist_video now fresh user i v w) w.social.playlist_videos keyed
      (add_playlist_video-Answers now fresh user i v w)
edit_playlist-Edits now user i (drop v) w keyed =
    drop-Edits i v (remove_playlist_video now user i v w) w.social.playlist_videos keyed
      (remove_playlist_video-Answers now user i v w)
