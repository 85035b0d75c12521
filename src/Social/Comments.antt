-- ===== src/Social/Comments.antt =====
-- The comments (internal/service/social_service.go).
pub mod Deletion
use Prim.Native.String.{len}
use video_streaming_service.Common.{
  ℕ, pos, Bool, false, ◌||◌, List, Option, none, some, String, Result, ok, err, video_not_found,
  comment_not_found, invalid_input, forbidden, ltb, ◌==◌, if◌then◌else◌,
}
use video_streaming_service.Domain.User.{Uuid, Time, is_some}
use video_streaming_service.Domain.Video.{Video, is_owned_by}
use video_streaming_service.Domain.Social.{Comment, validate_comment}
use video_streaming_service.Postgres.{World, Action}
use video_streaming_service.Postgres.Calls.{◌>>=◌, ◌>>◌, pure, raise, give}
use video_streaming_service.Postgres.Videos.{get_by_id}
use video_streaming_service.Postgres.Comments as Rows
use video_streaming_service.Social.{notify_for_comment}

unfoldable pub list_comments : Uuid → ℕ → ℕ → Action (List Comment × ℕ)
list_comments video limit offset = do
  get_by_id video
  comments ← Rows.list_comments video limit offset
  total ← Rows.count_comments video
  pure (comments, total)

-- A comment that was deleted softly is not found.
unfoldable pub undeleted : Comment → Action Unit
undeleted c = if is_some c.deleted_at then raise comment_not_found else pure tt

unfoldable pub list_replies : Uuid → ℕ → ℕ → Action (List Comment × ℕ)
unfolding undeleted
list_replies parent limit offset = do
  c ← Rows.get_comment parent
  undeleted c
  replies ← Rows.list_replies parent limit offset
  total ← Rows.count_replies parent
  pure (replies, total)

-- The comment that is replied to, on the same video.
unfoldable pub parent_of : Uuid → Option Uuid → Action (Option Comment)
unfolding undeleted
parent_of video none = pure none
parent_of video (some id) = do
  parent ← Rows.get_comment id
  undeleted parent
  (if parent.video_id == video then pure (some parent) else raise invalid_input)

abbrev pub draft_comment : Time → Uuid → Uuid → Uuid → Option Uuid → String → Comment
draft_comment now fresh user video parent content = record {
  id = fresh;
  video_id = video;
  user_id = user;
  parent_id = parent;
  content = content;
  like_count = pos 0;
  reply_count = pos 0;
  pinned = false;
  edited_at = none;
  created_at = now;
  updated_at = now;
  deleted_at = none;
}

-- The stored comment, or the one at hand where it cannot be read.
or_draft : Comment → Result Comment × World → Result Comment × World
or_draft c (ok stored, w) = (ok stored, w)
or_draft c (err _, w) = (ok c, w)

unfoldable pub reload : Comment → Action Comment
unfolding or_draft
reload c w = or_draft c (Rows.get_comment c.id w)

unfoldable pub create_comment :
    Time → Uuid → Uuid → Uuid → Uuid → Option Uuid → String → Action Comment
unfolding parent_of reload
create_comment now fresh fresh_notice user video parent_id content = do
  row ← get_by_id video
  parent ← parent_of video parent_id
  let comment = draft_comment now fresh user video parent_id content
  give (validate_comment comment)
  Rows.create_comment now comment
  notify_for_comment fresh_notice now comment parent row
  reload comment

unfoldable pub update_comment : Time → Uuid → Uuid → String → Action Comment
unfolding undeleted
update_comment now user id content = do
  comment ← Rows.get_comment id
  undeleted comment
  (if comment.user_id == user then pure tt else raise forbidden)
  (if len content == 0 || ltb 10000 (len content) then raise invalid_input else pure tt)
  Rows.update_comment_content now id content
  Rows.get_comment id

owner_verdict : Uuid → Result Video × World → Result Bool × World
owner_verdict actor (ok video, w) = (ok (is_owned_by video actor), w)
owner_verdict actor (err video_not_found, w) = (ok false, w)
owner_verdict actor (err e, w) = (err e, w)

-- Whether the actor owns the video; a video that is gone has no owner.
unfoldable pub owns_video : Uuid → Uuid → Action Bool
unfolding owner_verdict
owns_video actor video w = owner_verdict actor (get_by_id video w)

-- `can_moderate` is what the handler found of the permission moderate_content.
unfoldable pub delete_comment : Time → Uuid → Bool → Uuid → Action Unit
unfolding undeleted owns_video
delete_comment now actor can_moderate id = do
  comment ← Rows.get_comment id
  undeleted comment
  allowed ←
      (if can_moderate || comment.user_id == actor
        then pure Bool.true
        else owns_video actor comment.video_id)
  (if allowed then pure tt else raise forbidden)
  Rows.soft_delete_comment now id
