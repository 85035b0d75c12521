-- ===== src/Social/Counters/Comments.antt =====
-- videos.comment_count and comments.reply_count against the rows of comments
-- (internal/repository/postgres/social_repository.go).
use mathlib.Core.Option as Option
use video_streaming_service.Common.{
  ℤ, suc_int, ◌≡◌, refl, inl, inr, Bool, true, ◌&&◌, List, [], ◌∷◌, ◌++◌, Option, none, some, arith,
  Bool-cases, Option-cases, ◌==◌, if◌then◌else◌,
}
use video_streaming_service.Common.Rows.{count, count-append, count-update_first_same, count-le}
use video_streaming_service.Common.Rows.Keys.{lookup, write, lookup-write, lookup-append}
use video_streaming_service.Domain.User.{Uuid, Time, is_some}
use video_streaming_service.Domain.Video.{Video, is_id}
use video_streaming_service.Domain.Social.{Comment}
use video_streaming_service.Postgres.{World}
use video_streaming_service.Postgres.Calls.{Keeps, round_trip-Keeps}
use video_streaming_service.Postgres.Videos.{alter_row}
use video_streaming_service.Postgres.Comments.{
  comment_id, is_live, step_replies, accepts_comment, inserted_comment, create_comment, is_reply_to,
  is_parent,
}
use video_streaming_service.Social.Counters.Tally.{tallies}

abbrev pub is_on : Uuid → Comment → Bool
is_on video c = c.video_id == video

abbrev pub is_child : Uuid → Comment → Bool
is_child parent c = is_id c.parent_id parent

-- Every video's counter is the number of its comments that are not deleted.
abbrev pub CommentsTallied : (Uuid → Option Video) → List Comment → Type 0
CommentsTallied videos comments =
    (id : Uuid)
    → tallies (λ v. v.comment_count) (videos id) (count (is_on id) comments)
        (count (λ c. is_on id c && is_live c) comments)
      ≡ true

-- Every comment's counter is the number of its replies that are not deleted.
abbrev pub RepliesTallied : List Comment → List Comment → Type 0
RepliesTallied parents comments =
    (id : Uuid)
    → tallies (λ c. c.reply_count) (lookup comment_id id parents) (count (is_child id) comments)
        (count (is_reply_to id) comments)
      ≡ true

abbrev pub CommentsCounted : World → Type 0
CommentsCounted w = CommentsTallied w.videos w.social.comments

abbrev pub RepliesCounted : World → Type 0
RepliesCounted w = RepliesTallied w.social.comments w.social.comments

-- Both counters at once.
abbrev pub ThreadsCounted : World → Type 0
ThreadsCounted w = CommentsCounted w × RepliesCounted w

module _ (now : Time) (step : ℤ → ℤ) where
  pub step_replies-lookup :
      (parent : Uuid) (comments : List Comment) (id : Uuid)
      → lookup comment_id id (step_replies now step (some parent) comments) ≡ (
          if parent == id
          then Option.map {A = Comment} {B = Comment}
              (λ c. record c { reply_count = step c.reply_count; updated_at = now })
              (lookup comment_id parent comments)
          else lookup comment_id id comments)
  unfolding step_replies
  step_replies-lookup parent comments id = lookup-write comment_id _ (λ c. refl) parent id comments

  -- The trigger's step on a parent is seen by no condition of a comment.
  pub step_replies-count :
      (q : Comment → Bool)
      → ((c : Comment) (n : ℤ) → q (record c { reply_count = n; updated_at = now }) ≡ q c)
      → (parent : Option Uuid) (comments : List Comment)
      → count q (step_replies now step parent comments) ≡ count q comments
  unfolding step_replies write
  step_replies-count q blind none comments = refl
  step_replies-count q blind (some parent) comments =
      count-update_first_same q _ _ comments (λ c. blind c (step c.reply_count))

module _ (now : Time) (w : World) (c : Comment)
    (fresh : lookup comment_id c.id w.social.comments ≡ none) where
  -- The table with the new row, and the trigger's step on its parent.
  abbrev grown : List Comment
  grown = w.social.comments ++ inserted_comment c ∷ []

  insert_comment-CommentsTallied :
      is_some (w.videos c.video_id) ≡ true
      → CommentsCounted w
      → CommentsTallied
          (alter_row c.video_id
            (λ v. record v { comment_count = suc_int v.comment_count; updated_at = now })
            w.videos)
          (step_replies now suc_int c.parent_id grown)
  unfolding alter_row
  insert_comment-CommentsTallied there h id = ground (
    arith,
    there,
    h id,
    step_replies-count now suc_int (is_on id) (λ x n. refl) c.parent_id grown,
    step_replies-count now suc_int (λ x. is_on id x && is_live x) (λ x n. refl) c.parent_id grown,
    count-append (is_on id) w.social.comments (inserted_comment c),
    count-append (λ x. is_on id x && is_live x) w.social.comments (inserted_comment c),
  )

  insert_comment-RepliesTallied :
      (parent : Option Uuid)
      → c.parent_id ≡ parent
      → is_parent c parent w.social.comments ≡ true
      → RepliesCounted w
      → (id : Uuid)
      → tallies
          (λ x. x.reply_count)
          (lookup comment_id id (step_replies now suc_int parent grown))
          (count (is_child id) grown)
          (count (is_reply_to id) grown)
        ≡ true
  unfolding step_replies
  insert_comment-RepliesTallied none e there h id = ground (
    arith,
    fresh,
    h id,
    h c.id,
    e,
    lookup-append comment_id id w.social.comments (inserted_comment c) fresh,
    count-append (is_child id) w.social.comments (inserted_comment c),
    count-append (is_reply_to id) w.social.comments (inserted_comment c),
    count-le (is_reply_to id) (is_child id) w.social.comments (λ x r. ground (arith, r)),
  )
  insert_comment-RepliesTallied (some parent) e there h id = ground (
    arith,
    fresh,
    h id,
    h c.id,
    e,
    there,
    step_replies-lookup now suc_int parent grown id,
    lookup-append comment_id id w.social.comments (inserted_comment c) fresh,
    lookup-append comment_id parent w.social.comments (inserted_comment c) fresh,
    count-append (is_child id) w.social.comments (inserted_comment c),
    count-append (is_reply_to id) w.social.comments (inserted_comment c),
    count-le (is_reply_to id) (is_child id) w.social.comments (λ x r. ground (arith, r)),
  )

create_comment-CommentsCounted :
    (now : Time) (c : Comment) → Keeps CommentsCounted (create_comment now c)
unfolding create_comment
create_comment-CommentsCounted now c =
    round_trip-Keeps _ _ (λ w fs h. h)
      (λ w h. elim (Bool-cases (accepts_comment w c)) [
        | inr bad ↦ rw bad h
        | inl good ↦
            rw good (
              insert_comment-CommentsTallied now w c (ground (arith, good)) (ground (arith, good))
                h)
      ])

create_comment-RepliesCounted :
    (now : Time) (c : Comment) → Keeps RepliesCounted (create_comment now c)
unfolding create_comment
create_comment-RepliesCounted now c =
    round_trip-Keeps _ _ (λ w fs h. h)
      (λ w h. elim (Bool-cases (accepts_comment w c)) [
        | inr bad ↦ rw bad h
        | inl good ↦ rw good (λ id.
            let fresh : lookup comment_id c.id w.social.comments ≡ none = ground (arith, good) in
            let there : is_parent c c.parent_id w.social.comments ≡ true = ground (arith, good) in
            let grew = w.social.comments ++ inserted_comment c ∷ [] in
            let kept = insert_comment-RepliesTallied now w c fresh c.parent_id refl there h id in
            rw
              (
                step_replies-count now suc_int (is_child id) (λ x n. refl) c.parent_id grew,
                step_replies-count now suc_int (is_reply_to id) (λ x n. refl) c.parent_id grew,
              )
              kept)
      ])

pub create_comment-ThreadsCounted :
    (now : Time) (c : Comment) → Keeps ThreadsCounted (create_comment now c)
create_comment-ThreadsCounted now c = record {
  run = λ w (hc, hr). (
    (create_comment-CommentsCounted now c).run w hc,
    (create_comment-RepliesCounted now c).run w hr,
  );
}

-- What happens to a video's other columns is none of the comments' business.
pub alter_row-CommentsTallied :
    (i : Uuid) (f : Video → Video) (w : World)
    → ((v : Video) → (f v).comment_count ≡ v.comment_count)
    → CommentsCounted w
    → CommentsTallied (alter_row i f w.videos) w.social.comments
unfolding alter_row
alter_row-CommentsTallied i f w same counted id = elim (Option-cases (w.videos i)) [
  | inl e ↦ ground (arith, e, counted id)
  | inr (v, e) ↦ ground (arith, e, counted id, same v)
]
