-- ===== src/Social/Counters/Likes.antt =====
-- videos.like_count against the rows of likes (internal/repository/postgres/social_repository.go).
use video_streaming_service.Common.{
  ◌≡◌, inl, inr, refl, Bool, true, ◌&&◌, List, [], ◌∷◌, ◌++◌, Option, none, some, arith, Bool-cases,
  Option-cases, ◌==◌,
}
use video_streaming_service.Common.Rows.{
  find, count, count-append, count-remove_first, count-update_first, count-update_first_same,
  update_first, remove_first,
}
use video_streaming_service.Domain.User.{Uuid, Time, is_some}
use video_streaming_service.Domain.Video.{Video}
use video_streaming_service.Domain.Social.{Like}
use video_streaming_service.Postgres.Videos.{alter_row}
use video_streaming_service.Postgres.Likes.{
  is_pair, with_likes, rate, unrate, refuses_like, like_inserted, like_updated, like_deleted,
  upsert_like, delete_like,
}
use video_streaming_service.Postgres.Calls.{Keeps, round_trip-Keeps}
use video_streaming_service.Postgres.{World}
use video_streaming_service.Social.Counters.Tally.{tallies}

-- The likes of a video, without the dislikes.
abbrev pub is_liked : Uuid → Like → Bool
is_liked video l = l.video_id == video && l.is_like

abbrev pub is_on : Uuid → Like → Bool
is_on video l = l.video_id == video

-- Every video's counter is the number of its likes.
abbrev pub LikesTallied : (Uuid → Option Video) → List Like → Type 0
LikesTallied videos likes =
    (id : Uuid)
    → tallies (λ v. v.like_count) (videos id) (count (is_on id) likes) (count (is_liked id) likes)
      ≡ true

abbrev pub LikesCounted : World → Type 0
LikesCounted w = LikesTallied w.videos w.social.likes

module _ (now : Time) (w : World) where
  insert_like-LikesCounted :
      (l : Like)
      → is_some (w.videos l.video_id) ≡ true
      → LikesCounted w
      → LikesCounted (like_inserted now l (with_likes (w.social.likes ++ l ∷ []) w))
  unfolding like_inserted alter_row
  insert_like-LikesCounted l there counted id =
      let all = count-append (is_on id) w.social.likes l in
      let liked = count-append (is_liked id) w.social.likes l in
      elim (Bool-cases l.is_like) [
        | inl up ↦ rw up (ground (arith, up, counted id, all, liked))
        | inr down ↦ rw down (ground (arith, down, counted id, all, liked))
      ]

  update_like-LikesCounted :
      (p : Like → Bool) (liked : Bool) (old : Like)
      → find p w.social.likes ≡ some old
      → LikesCounted w
      → LikesCounted (
          like_updated now old
            (record old { is_like = liked })
            (with_likes (update_first p (λ l. record l { is_like = liked }) w.social.likes) w))
  unfolding like_updated alter_row
  update_like-LikesCounted p liked old e counted id =
      let set : Like → Like = λ l. record l { is_like = liked } in
      let all = count-update_first_same (is_on id) p set w.social.likes (λ x. refl) in
      let some_liked = count-update_first (is_liked id) p set w.social.likes old e in
      elim (Bool-cases liked) [
        | inl up ↦ elim (Bool-cases old.is_like) [
          | inl was ↦ rw (up, was) (ground (arith, up, was, counted id, all, some_liked))
          | inr was ↦ rw (up, was) (ground (arith, up, was, counted id, all, some_liked))
        ]
        | inr down ↦ elim (Bool-cases old.is_like) [
          | inl was ↦ rw (down, was) (ground (arith, down, was, counted id, all, some_liked))
          | inr was ↦ rw (down, was) (ground (arith, down, was, counted id, all, some_liked))
        ]
      ]

  remove_like-LikesCounted :
      (p : Like → Bool) (old : Like)
      → find p w.social.likes ≡ some old
      → LikesCounted w
      → LikesCounted (like_deleted now old (with_likes (remove_first p w.social.likes) w))
  unfolding like_deleted alter_row
  remove_like-LikesCounted p old e counted id =
      let all = count-remove_first (is_on id) p w.social.likes old e in
      let liked = count-remove_first (is_liked id) p w.social.likes old e in
      elim (Bool-cases old.is_like) [
        | inl was ↦ rw was (ground (arith, was, counted id, all, liked))
        | inr was ↦ rw was (ground (arith, was, counted id, all, liked))
      ]

rate-LikesCounted :
    (now : Time) (new : Like) (row : Option Like) (w : World)
    → find (is_pair new.user_id new.video_id) w.social.likes ≡ row
    → LikesCounted w
    → LikesCounted (rate now new row w).1
unfolding rate
rate-LikesCounted now new none w e counted = elim (Bool-cases (refuses_like w new)) [
  | inl bad ↦ rw bad counted
  | inr fine ↦ rw fine (insert_like-LikesCounted now w new (ground (arith, fine)) counted)
]
rate-LikesCounted now new (some old) w e counted =
    update_like-LikesCounted now w (is_pair new.user_id new.video_id) new.is_like old e counted

pub upsert_like-LikesCounted : (now : Time) (l : Like) → Keeps LikesCounted (upsert_like now l)
unfolding upsert_like
upsert_like-LikesCounted now l =
    round_trip-Keeps _ _ (λ w fs h. h) (λ w. rate-LikesCounted now l _ w refl)

unrate-LikesCounted :
    (now : Time) (user video : Uuid) (row : Option Like) (w : World)
    → find (is_pair user video) w.social.likes ≡ row
    → LikesCounted w
    → LikesCounted (unrate now user video row w).1
unfolding unrate
unrate-LikesCounted now user video none w e counted = counted
unrate-LikesCounted now user video (some old) w e counted =
    remove_like-LikesCounted now w (is_pair user video) old e counted

pub delete_like-LikesCounted :
    (now : Time) (user video : Uuid) → Keeps LikesCounted (delete_like now user video)
unfolding delete_like
delete_like-LikesCounted now user video =
    round_trip-Keeps _ _ (λ w fs h. h) (λ w. unrate-LikesCounted now user video _ w refl)

-- What happens to a video's other columns is none of the likes' business.
pub alter_row-LikesTallied :
    (i : Uuid) (f : Video → Video) (w : World)
    → ((v : Video) → (f v).like_count ≡ v.like_count)
    → LikesCounted w
    → LikesTallied (alter_row i f w.videos) w.social.likes
unfolding alter_row
alter_row-LikesTallied i f w same counted id = elim (Option-cases (w.videos i)) [
  | inl e ↦ ground (arith, e, counted id)
  | inr (v, e) ↦ ground (arith, e, counted id, same v)
]
