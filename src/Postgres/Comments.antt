-- ===== src/Postgres/Comments.antt =====
-- internal/repository/postgres/social_repository.go: the comments, with the triggers on their table
-- (migrations/000009_add_social_features.up.sql, 000011_fix_count_triggers.up.sql). `now` is the
-- database's NOW().
use video_streaming_service.Common.{
  ℕ, ℤ, pos, suc_int, pred_int, Bool, true, false, not, ◌&&◌, ◌||◌, List, [], ◌∷◌, ◌++◌, Option,
  none, some, String, length, ok, err, database_error, comment_not_found, ltb, leb, ◌==◌,
  if◌then◌else◌,
}
use video_streaming_service.Common.Text.{codes}
use video_streaming_service.Common.Rows.{filter, count, sort, page, Keys.lookup, Keys.write}
use video_streaming_service.Domain.User.{Uuid, Time, is_some}
use video_streaming_service.Domain.Video.{is_id}
use video_streaming_service.Domain.Social.{Comment}
use video_streaming_service.Postgres.{World, Action}
use video_streaming_service.Postgres.Calls.{round_trip}
use video_streaming_service.Postgres.Videos.{alter_row}

abbrev pub comment_id : Comment → Uuid
comment_id c = c.id

-- `deleted_at IS NULL`
abbrev pub is_live : Comment → Bool
is_live c = not (is_some c.deleted_at)

abbrev pub with_comments : List Comment → World → World
with_comments comments w = record w { social = record w.social { comments = comments } }

-- `UPDATE videos SET comment_count = ...`
abbrev pub step_comments : Time → (ℤ → ℤ) → Uuid → World → World
step_comments now step video w = record w {
  videos =
      alter_row video (λ v. record v { comment_count = step v.comment_count; updated_at = now })
        w.videos;
}

-- `UPDATE comments SET reply_count = ... WHERE id = parent_id`
unfoldable pub step_replies : Time → (ℤ → ℤ) → Option Uuid → List Comment → List Comment
step_replies now step none comments = comments
step_replies now step (some parent) comments =
    write comment_id parent (λ c. record c { reply_count = step c.reply_count; updated_at = now })
      comments

-- `CHECK (char_length(content) ...)`
abbrev pub fits_content : String → Bool
fits_content content = ltb 0 (length (codes content)) && leb (length (codes content)) 10000

-- A comment may name itself as its parent, for the reference is checked after the insertion.
abbrev pub is_parent : Comment → Option Uuid → List Comment → Bool
is_parent c none comments = true
is_parent c (some parent) comments = parent == c.id || is_some (lookup comment_id parent comments)

abbrev pub accepts_comment : World → Comment → Bool
accepts_comment w c =
    not (is_some (lookup comment_id c.id w.social.comments))
    && (is_some (w.videos c.video_id)
        && (is_some (w.users c.user_id)
            && (fits_content c.content && is_parent c c.parent_id w.social.comments)))

-- The columns that the statement does not name take their defaults.
abbrev pub inserted_comment : Comment → Comment
inserted_comment c = record c {
  like_count = pos 0;
  reply_count = pos 0;
  pinned = false;
  edited_at = none;
  deleted_at = none;
}

unfoldable pub create_comment : Time → Comment → Action Unit
unfolding step_replies
create_comment now c = round_trip database_error (λ w.
    if accepts_comment w c
    then (
      ok tt,
      step_comments now suc_int c.video_id (
          with_comments
            (step_replies now suc_int c.parent_id (w.social.comments ++ inserted_comment c ∷ []))
            w),
    )
    else (err database_error, w))

-- The row joined to its author's.
abbrev pub has_author : World → Comment → Bool
has_author w c = is_some (w.users c.user_id)

comment_or : Option Comment → Action Comment
comment_or none w = (err comment_not_found, w)
comment_or (some c) w = if has_author w c then (ok c, w) else (err comment_not_found, w)

-- A comment that is deleted softly is found as well.
unfoldable pub get_comment : Uuid → Action Comment
unfolding comment_or
get_comment id =
    round_trip database_error (λ w. comment_or (lookup comment_id id w.social.comments) w)

abbrev pub is_top_level : Uuid → Comment → Bool
is_top_level video c = c.video_id == video && (not (is_some c.parent_id) && is_live c)

abbrev pub is_reply_to : Uuid → Comment → Bool
is_reply_to parent c = is_id c.parent_id parent && is_live c

-- `ORDER BY c.pinned DESC, c.created_at DESC`
abbrev pub pinned_first : Comment → Comment → Bool
pinned_first a b =
    if a.pinned
    then not b.pinned || leb b.created_at a.created_at
    else not b.pinned && leb b.created_at a.created_at

abbrev pub oldest_first : Comment → Comment → Bool
oldest_first a b = leb a.created_at b.created_at

unfoldable pub list_comments : Uuid → ℕ → ℕ → Action (List Comment)
list_comments video limit offset = round_trip database_error (λ w. (
  ok (
      page limit offset (
        sort pinned_first
          (filter (λ c. is_top_level video c && has_author w c) w.social.comments))),
  w,
))

unfoldable pub count_comments : Uuid → Action ℕ
count_comments video =
    round_trip database_error (λ w. (ok (count (is_top_level video) w.social.comments), w))

unfoldable pub list_replies : Uuid → ℕ → ℕ → Action (List Comment)
list_replies parent limit offset = round_trip database_error (λ w. (
  ok (
      page limit offset (
        sort oldest_first
          (filter (λ c. is_reply_to parent c && has_author w c) w.social.comments))),
  w,
))

unfoldable pub count_replies : Uuid → Action ℕ
count_replies parent =
    round_trip database_error (λ w. (ok (count (is_reply_to parent) w.social.comments), w))

unfoldable pub rewrite : Time → Uuid → String → Option Comment → Action Unit
rewrite now id content none w = (err comment_not_found, w)
rewrite now id content (some c) w =
    if not (is_live c)
    then (err comment_not_found, w)
    else if not (fits_content content)
    then (err database_error, w)
    else (
      ok tt,
      with_comments
          (write comment_id id
            (λ x. record x { content = content; edited_at = some now; updated_at = now })
            w.social.comments)
          w,
    )

unfoldable pub update_comment_content : Time → Uuid → String → Action Unit
unfolding rewrite
update_comment_content now id content =
    round_trip database_error
      (λ w. rewrite now id content (lookup comment_id id w.social.comments) w)

-- The row is marked; the trigger counts on the way from not deleted to deleted.
unfoldable pub hide : Time → Uuid → Option Comment → Action Unit
unfolding step_replies
hide now id none w = (err comment_not_found, w)
hide now id (some c) w = if not (is_live c) then (err comment_not_found, w) else (
  ok tt,
  step_comments now pred_int c.video_id (
      with_comments
        (step_replies now pred_int c.parent_id (
          write comment_id id (λ x. record x { deleted_at = some now; updated_at = now })
            w.social.comments))
        w),
)

unfoldable pub soft_delete_comment : Time → Uuid → Action Unit
unfolding hide
soft_delete_comment now id =
    round_trip database_error (λ w. hide now id (lookup comment_id id w.social.comments) w)
