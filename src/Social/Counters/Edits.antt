-- ===== src/Social/Counters/Edits.antt =====
-- The counters of comments while comments are edited and deleted
-- (internal/repository/postgres/social_repository.go).
use video_streaming_service.Common.{
  ◌+◌, pred_int, ◌≡◌, refl, inl, inr, Bool, true, not, ◌&&◌, List, Option, none, some, String,
  arith, Bool-cases, ◌==◌, if◌then◌else◌,
}
use video_streaming_service.Common.Rows.{
  count, update_first, count-update_first, count-update_first_same,
}
use video_streaming_service.Common.Rows.Keys.{lookup, write, lookup-write, lookup-write_same}
use video_streaming_service.Domain.User.{Uuid, Time}
use video_streaming_service.Domain.Social.{Comment}
use video_streaming_service.Postgres.{World}
use video_streaming_service.Postgres.Calls.{Keeps, round_trip-Keeps}
use video_streaming_service.Postgres.Videos.{alter_row}
use video_streaming_service.Postgres.Comments.{
  comment_id, is_live, step_replies, rewrite, hide, update_comment_content, soft_delete_comment,
  fits_content, is_reply_to,
}
use video_streaming_service.Social.Counters.Comments.{
  is_on, is_child, CommentsTallied, RepliesTallied, CommentsCounted, RepliesCounted, ThreadsCounted,
  step_replies-lookup, step_replies-count,
}
use video_streaming_service.Social.Counters.Tally.{tallies, tallies_same}

module _ (now : Time) (w : World) (i : Uuid) (c : Comment)
    (there : lookup comment_id i w.social.comments ≡ some c) (live : is_live c ≡ true) where
  abbrev marked : List Comment
  marked =
      write comment_id i (λ x. record x { deleted_at = some now; updated_at = now })
        w.social.comments

  marked-count :
      (q : Comment → Bool)
      → count q marked + (if q c then 1 else 0)
        ≡ count q w.social.comments
          + (if q (record c { deleted_at = some now; updated_at = now }) then 1 else 0)
  unfolding write lookup
  marked-count q = count-update_first q (λ x. x.id == i) _ w.social.comments c there

  hide-CommentsTallied :
      CommentsCounted w
      → CommentsTallied
          (alter_row c.video_id
            (λ v. record v { comment_count = pred_int v.comment_count; updated_at = now })
            w.videos)
          (step_replies now pred_int c.parent_id marked)
  unfolding alter_row
  hide-CommentsTallied h id = ground (
    arith,
    live,
    h id,
    step_replies-count now pred_int (is_on id) (λ x n. refl) c.parent_id marked,
    step_replies-count now pred_int (λ x. is_on id x && is_live x) (λ x n. refl) c.parent_id marked,
    marked-count (is_on id),
    marked-count (λ x. is_on id x && is_live x),
  )

  hide-RepliesTallied :
      (parent : Option Uuid)
      → c.parent_id ≡ parent
      → RepliesCounted w
      → (id : Uuid)
      → tallies
          (λ x. x.reply_count)
          (lookup comment_id id (step_replies now pred_int parent marked))
          (count (is_child id) marked)
          (count (is_reply_to id) marked)
        ≡ true
  unfolding step_replies
  hide-RepliesTallied none e h id = ground (
    arith,
    live,
    there,
    e,
    h id,
    lookup-write comment_id (λ x. record x { deleted_at = some now; updated_at = now }) (λ x. refl)
        i id w.social.comments,
    marked-count (is_child id),
    marked-count (is_reply_to id),
  )
  hide-RepliesTallied (some parent) e h id = ground (
    arith,
    live,
    there,
    e,
    h id,
    step_replies-lookup now pred_int parent marked id,
    lookup-write comment_id (λ x. record x { deleted_at = some now; updated_at = now }) (λ x. refl)
        i id w.social.comments,
    lookup-write comment_id (λ x. record x { deleted_at = some now; updated_at = now }) (λ x. refl)
        i parent w.social.comments,
    marked-count (is_child id),
    marked-count (is_reply_to id),
  )

hide-Kept :
    (now : Time) (i : Uuid) (row : Option Comment) (w : World)
    → lookup comment_id i w.social.comments ≡ row
    → CommentsCounted w
    → RepliesCounted w
    → CommentsCounted (hide now i row w).1 × RepliesCounted (hide now i row w).1
unfolding hide
hide-Kept now i none w e hc hr = (hc, hr)
hide-Kept now i (some c) w e hc hr = elim (Bool-cases (not (is_live c))) [
  | inl gone ↦ rw gone (hc, hr)
  | inr there ↦
      let live : is_live c ≡ true = ground (arith, there) in
      let rows = marked now w i c e live in
      rw there (
        hide-CommentsTallied now w i c e live hc,
        λ id.
            rw
              (
                step_replies-count now pred_int (is_child id) (λ x n. refl) c.parent_id rows,
                step_replies-count now pred_int (is_reply_to id) (λ x n. refl) c.parent_id rows,
              )
              (hide-RepliesTallied now w i c e live c.parent_id refl hr id),
      )
]

-- A change of a comment that leaves its id, its place, its counter and whether it is deleted.
write-Kept :
    (now : Time) (content : String) (i : Uuid) (w : World)
    → CommentsCounted w
    → RepliesCounted w
    → let rows =
        write comment_id i
          (λ c. record c { content = content; edited_at = some now; updated_at = now })
          w.social.comments in
      CommentsTallied w.videos rows × RepliesTallied rows rows
unfolding write
write-Kept now content i w hc hr =
    let edit : Comment → Comment =
      λ c. record c { content = content; edited_at = some now; updated_at = now } in
    let p : Comment → Bool = λ x. x.id == i in
    let same : (q : Comment → Bool)
        → ((x : Comment) → q (edit x) ≡ q x)
        → count q (update_first p edit w.social.comments) ≡ count q w.social.comments =
      λ q blind. count-update_first_same q p edit w.social.comments blind in
    (
      λ id.
          rw (same (is_on id) (λ x. refl), same (λ c. is_on id c && is_live c) (λ x. refl)) (hc id),
      λ id.
          tallies_same (λ c. c.reply_count) _ _ _ _
            (lookup-write_same comment_id (λ c. c.reply_count) edit (λ c. refl) (λ c. refl) i id
              w.social.comments)
            (rw (same (is_child id) (λ x. refl), same (is_reply_to id) (λ x. refl)) (hr id)),
    )

rewrite-Kept :
    (now : Time) (i : Uuid) (content : String) (row : Option Comment) (w : World)
    → CommentsCounted w
    → RepliesCounted w
    → CommentsCounted (rewrite now i content row w).1
      × RepliesCounted (rewrite now i content row w).1
unfolding rewrite
rewrite-Kept now i content none w hc hr = (hc, hr)
rewrite-Kept now i content (some c) w hc hr = elim (Bool-cases (not (is_live c))) [
  | inl gone ↦ rw gone (hc, hr)
  | inr there ↦ elim (Bool-cases (not (fits_content content))) [
    | inl bad ↦ rw (there, bad) (hc, hr)
    | inr good ↦ rw (there, good) (write-Kept now content i w hc hr)
  ]
]

pub soft_delete_comment-ThreadsCounted :
    (now : Time) (i : Uuid) → Keeps ThreadsCounted (soft_delete_comment now i)
unfolding soft_delete_comment
soft_delete_comment-ThreadsCounted now i =
    round_trip-Keeps _ _ (λ w fs h. h) (λ w (hc, hr). hide-Kept now i _ w refl hc hr)

pub update_comment_content-ThreadsCounted :
    (now : Time) (i : Uuid) (content : String)
    → Keeps ThreadsCounted (update_comment_content now i content)
unfolding update_comment_content
update_comment_content-ThreadsCounted now i content =
    round_trip-Keeps _ _ (λ w fs h. h) (λ w (hc, hr). rewrite-Kept now i content _ w hc hr)
