-- ===== src/Social/Comments/Deletion.antt =====
-- Who may delete a comment (internal/service/social_service.go: DeleteComment).
use video_streaming_service.Common.{
  ◌≡◌, ◌∙◌, ◌⊎◌, inl, inr, refl, ap, subst, forbidden, Bool, true, false, ◌||◌, none, some, ok,
  arith, Bool-cases, Option-cases, ◌==◌, if◌then◌else◌,
}
use video_streaming_service.Common.Rows.Keys.{lookup}
use video_streaming_service.Domain.User.{Uuid, Time}
use video_streaming_service.Domain.Video.{Video, is_owned_by}
use video_streaming_service.Domain.Social.{Comment}
use video_streaming_service.Postgres.{World, Action}
use video_streaming_service.Postgres.Calls.{◌>>=◌, ◌>>◌, >>=-eq-ok, pure, raise, round_trip}
use video_streaming_service.Postgres.Videos.{get_by_id}
use video_streaming_service.Postgres.Comments.{comment_id, get_comment}
use video_streaming_service.Social.Comments.{undeleted, owns_video, delete_comment}

-- The actor moderates, wrote the comment, or owns the video that it stands on.
pub record MayDelete (actor : Uuid) (can_moderate : Bool) (c : Comment) (w : World) : Type 0 where
  pub reason :
      (can_moderate ≡ true)
      ⊎ ((c.user_id ≡ actor)
          ⊎ ((v : Video) × (w.videos c.video_id ≡ some v) × (v.user_id ≡ some actor)))

-- Only the videos of the world matter.
MayDelete-same :
    (actor : Uuid) (can_moderate : Bool) (c : Comment) (w w' : World)
    → w.videos ≡ w'.videos
    → MayDelete actor can_moderate c w
    → MayDelete actor can_moderate c w'
MayDelete-same actor can_moderate c w w' e may = record {
  reason =
      subst
        (λ videos.
          (can_moderate ≡ true)
          ⊎ ((c.user_id ≡ actor)
              ⊎ ((v : Video) × (videos c.video_id ≡ some v) × (v.user_id ≡ some actor))))
        e may.reason;
}

get_comment-ok :
    (id : Uuid) (w : World) (c : Comment)
    → (get_comment id w).0 ≡ ok c
    → (lookup comment_id id w.social.comments ≡ some c) × ((get_comment id w).1.videos ≡ w.videos)
unfolding get_comment round_trip
get_comment-ok id w c h = (ground arith, ground arith)

owns_video-ok :
    (actor video : Uuid) (w : World)
    → (owns_video actor video w).0 ≡ ok true
    → (v : Video) × (w.videos video ≡ some v) × (v.user_id ≡ some actor)
unfolding owns_video get_by_id round_trip is_owned_by
owns_video-ok actor video w h = elim (Option-cases (w.videos video)) [
  | inl e ↦ absurd (ground (arith, e))
  | inr (v, e) ↦ (v, e, ground (arith, e))
]

undeleted-ok :
    (c : Comment) (w : World)
    → (undeleted c w).0 ≡ ok tt
    → (c.deleted_at ≡ none) × ((undeleted c w).1 ≡ w)
unfolding undeleted raise pure
undeleted-ok c w h = elim (Option-cases c.deleted_at) [
  | inl live ↦ (live, ground (arith, live))
  | inr (t, gone) ↦ absurd (ground (arith, gone))
]

-- The verdict on the actor, and what a deletion that goes through says of it.
verdict-MayDelete :
    (actor : Uuid) (can_moderate : Bool) (c : Comment) (w : World)
    → ((if can_moderate || c.user_id == actor then pure true else owns_video actor c.video_id) w).0
      ≡ ok true
    → MayDelete actor can_moderate c w
unfolding pure
verdict-MayDelete actor can_moderate c w h = elim (Bool-cases can_moderate) [
  | inl moderates ↦ record { reason = inl moderates }
  | inr plain ↦ elim (Bool-cases (c.user_id == actor)) [
    | inl own ↦ record { reason = inr (inl (ground (arith, own))) }
    | inr other ↦ record {
      reason = inr (inr (owns_video-ok actor c.video_id w (ground (arith, plain, other, h))));
    }
  ]
]

passed :
    (allowed : Bool) (rest : Action Unit) (w : World)
    → (((if allowed then pure tt else raise forbidden) >> rest) w).0 ≡ ok tt
    → allowed ≡ true
unfolding ◌>>=◌ pure raise
passed true rest w h = refl
passed false rest w h = cc

-- A comment that DeleteComment deletes was there and not deleted, and the actor moderates, wrote it, or
-- owns the video that it stands on.
pub delete_comment-MayDelete :
    (now : Time) (actor : Uuid) (can_moderate : Bool) (id : Uuid) (w : World)
    → (delete_comment now actor can_moderate id w).0 ≡ ok tt
    → (c : Comment) × (lookup comment_id id w.social.comments ≡ some c)
      × (c.deleted_at ≡ none)
      × MayDelete actor can_moderate c w
unfolding delete_comment
delete_comment-MayDelete now actor can_moderate id w h =
    let (c, read, h1, _) = >>=-eq-ok (get_comment id) _ w h in
    let (found, videos) = get_comment-ok id w c read in
    let w1 = (get_comment id w).1 in
    let (_, there, h2, _) = >>=-eq-ok (undeleted c) _ w1 h1 in
    let (live, same) = undeleted-ok c w1 there in
    let w2 = (undeleted c w1).1 in
    let (allowed, judged, h3, _) =
      >>=-eq-ok
        (if can_moderate || c.user_id == actor then pure true else owns_video actor c.video_id) _ w2
        h2 in
    let granted = passed allowed _ _ h3 in
    let why = verdict-MayDelete actor can_moderate c w2 (judged ∙ ap ok granted) in
    (
      c,
      found,
      live,
      MayDelete-same actor can_moderate c w2 w (ap (λ v. v.videos) same ∙ videos) why,
    )
