-- ===== src/Social/Counters/Frames.antt =====
-- Ratings leave the counters of comments, and comments those of ratings
-- (internal/repository/postgres/social_repository.go).
use video_streaming_service.Common.{
  ℤ, suc_int, pred_int, refl, inl, inr, not, Option, none, some, String, Bool-cases,
}
use video_streaming_service.Domain.User.{Uuid, Time}
use video_streaming_service.Domain.Social.{Like, Comment}
use video_streaming_service.Postgres.{World}
use video_streaming_service.Postgres.Calls.{Keeps, round_trip-Keeps}
use video_streaming_service.Postgres.Likes.{
  rate, unrate, refuses_like, like_inserted, like_updated, like_deleted, upsert_like, delete_like,
  step_likes,
}
use video_streaming_service.Postgres.Comments.{
  create_comment, hide, rewrite, soft_delete_comment, update_comment_content, is_live, fits_content,
  accepts_comment, step_comments,
}
use video_streaming_service.Social.Counters.Likes.{LikesCounted, alter_row-LikesTallied}
use video_streaming_service.Social.Counters.Comments.{ThreadsCounted, alter_row-CommentsTallied}

step_likes-ThreadsCounted :
    (now : Time) (step : ℤ → ℤ) (video : Uuid) (w : World)
    → ThreadsCounted w
    → ThreadsCounted (step_likes now step video w)
step_likes-ThreadsCounted now step video w (hc, hr) =
    (alter_row-CommentsTallied video _ w (λ v. refl) hc, hr)

rate-ThreadsCounted :
    (now : Time) (new : Like) (row : Option Like) (w : World)
    → ThreadsCounted w
    → ThreadsCounted (rate now new row w).1
unfolding rate like_inserted like_updated
rate-ThreadsCounted now new none w h = elim (Bool-cases (refuses_like w new)) [
  | inl bad ↦ rw bad h
  | inr fine ↦ elim (Bool-cases new.is_like) [
    | inl up ↦ rw (fine, up) (step_likes-ThreadsCounted now suc_int new.video_id w h)
    | inr down ↦ rw (fine, down) h
  ]
]
rate-ThreadsCounted now new (some old) w h = elim (Bool-cases new.is_like) [
  | inl up ↦ elim (Bool-cases old.is_like) [
    | inl was ↦ rw (up, was) h
    | inr was ↦ rw (up, was) (step_likes-ThreadsCounted now suc_int old.video_id w h)
  ]
  | inr down ↦ elim (Bool-cases old.is_like) [
    | inl was ↦ rw (down, was) (step_likes-ThreadsCounted now pred_int old.video_id w h)
    | inr was ↦ rw (down, was) h
  ]
]

pub upsert_like-ThreadsCounted : (now : Time) (l : Like) → Keeps ThreadsCounted (upsert_like now l)
unfolding upsert_like
upsert_like-ThreadsCounted now l =
    round_trip-Keeps _ _ (λ w fs h. h) (λ w h. rate-ThreadsCounted now l _ w h)

unrate-ThreadsCounted :
    (now : Time) (user video : Uuid) (row : Option Like) (w : World)
    → ThreadsCounted w
    → ThreadsCounted (unrate now user video row w).1
unfolding unrate like_deleted
unrate-ThreadsCounted now user video none w h = h
unrate-ThreadsCounted now user video (some old) w h = elim (Bool-cases old.is_like) [
  | inl was ↦ rw was (step_likes-ThreadsCounted now pred_int old.video_id w h)
  | inr was ↦ rw was h
]

pub delete_like-ThreadsCounted :
    (now : Time) (user video : Uuid) → Keeps ThreadsCounted (delete_like now user video)
unfolding delete_like
delete_like-ThreadsCounted now user video =
    round_trip-Keeps _ _ (λ w fs h. h) (λ w h. unrate-ThreadsCounted now user video _ w h)

step_comments-LikesCounted :
    (now : Time) (step : ℤ → ℤ) (video : Uuid) (w : World)
    → LikesCounted w
    → LikesCounted (step_comments now step video w)
step_comments-LikesCounted now step video w h = alter_row-LikesTallied video _ w (λ v. refl) h

pub create_comment-LikesCounted :
    (now : Time) (c : Comment) → Keeps LikesCounted (create_comment now c)
unfolding create_comment
create_comment-LikesCounted now c =
    round_trip-Keeps _ _ (λ w fs h. h)
      (λ w h. elim (Bool-cases (accepts_comment w c)) [
        | inr bad ↦ rw bad h
        | inl good ↦ rw good (step_comments-LikesCounted now suc_int c.video_id w h)
      ])

hide-LikesCounted :
    (now : Time) (i : Uuid) (row : Option Comment) (w : World)
    → LikesCounted w
    → LikesCounted (hide now i row w).1
unfolding hide
hide-LikesCounted now i none w h = h
hide-LikesCounted now i (some c) w h = elim (Bool-cases (not (is_live c))) [
  | inl gone ↦ rw gone h
  | inr there ↦ rw there (step_comments-LikesCounted now pred_int c.video_id w h)
]

pub soft_delete_comment-LikesCounted :
    (now : Time) (i : Uuid) → Keeps LikesCounted (soft_delete_comment now i)
unfolding soft_delete_comment
soft_delete_comment-LikesCounted now i =
    round_trip-Keeps _ _ (λ w fs h. h) (λ w h. hide-LikesCounted now i _ w h)

rewrite-LikesCounted :
    (now : Time) (i : Uuid) (content : String) (row : Option Comment) (w : World)
    → LikesCounted w
    → LikesCounted (rewrite now i content row w).1
unfolding rewrite
rewrite-LikesCounted now i content none w h = h
rewrite-LikesCounted now i content (some c) w h = elim (Bool-cases (not (is_live c))) [
  | inl gone ↦ rw gone h
  | inr there ↦ elim (Bool-cases (not (fits_content content))) [
    | inl bad ↦ rw (there, bad) h
    | inr good ↦ rw (there, good) h
  ]
]

pub update_comment_content-LikesCounted :
    (now : Time) (i : Uuid) (content : String)
    → Keeps LikesCounted (update_comment_content now i content)
unfolding update_comment_content
update_comment_content-LikesCounted now i content =
    round_trip-Keeps _ _ (λ w fs h. h) (λ w h. rewrite-LikesCounted now i content _ w h)
