-- ===== src/Postgres/Likes.antt =====
-- internal/repository/postgres/social_repository.go: the ratings, with the trigger on their table
-- (migrations/000011_fix_count_triggers.up.sql) and the one on the table of videos. `now` is the
-- database's NOW().
use video_streaming_service.Common.{
  ℤ, suc_int, pred_int, Bool, not, ◌&&◌, ◌||◌, List, [], ◌∷◌, ◌++◌, Option, none, some, ok, err,
  database_error, like_not_found, ◌==◌, if◌then◌else◌,
}
use video_streaming_service.Common.Rows.{find, update_first, remove_first, Keys.lookup}
use video_streaming_service.Domain.User.{Uuid, Time, is_some}
use video_streaming_service.Domain.Social.{Like}
use video_streaming_service.Postgres.{World, Action}
use video_streaming_service.Postgres.Calls.{round_trip}
use video_streaming_service.Postgres.Videos.{alter_row}

-- UNIQUE(user_id, video_id)
abbrev pub is_pair : Uuid → Uuid → Like → Bool
is_pair user video l = l.user_id == user && l.video_id == video

abbrev pub with_likes : List Like → World → World
with_likes likes w = record w { social = record w.social { likes = likes } }

-- `UPDATE videos SET like_count = ...`
abbrev pub step_likes : Time → (ℤ → ℤ) → Uuid → World → World
step_likes now step video w = record w {
  videos =
      alter_row video (λ v. record v { like_count = step v.like_count; updated_at = now }) w.videos;
}

-- `update_like_counts()`
unfoldable pub like_inserted : Time → Like → World → World
like_inserted now new w = if new.is_like then step_likes now suc_int new.video_id w else w

unfoldable pub like_updated : Time → Like → Like → World → World
like_updated now old new w =
    if new.is_like
    then (if old.is_like then w else step_likes now suc_int new.video_id w)
    else (if old.is_like then step_likes now pred_int new.video_id w else w)

unfoldable pub like_deleted : Time → Like → World → World
like_deleted now old w = if old.is_like then step_likes now pred_int old.video_id w else w

-- What the table refuses: a second row of a primary key, and rows that are not there to refer to.
abbrev pub refuses_like : World → Like → Bool
refuses_like w l =
    is_some (lookup (λ x. x.id) l.id w.social.likes)
    || (not (is_some (w.users l.user_id)) || not (is_some (w.videos l.video_id)))

unfoldable pub rate : Time → Like → Option Like → Action Like
unfolding like_inserted like_updated
rate now new (some old) w = (
  ok (record new { id = old.id; created_at = old.created_at }),
  like_updated now old (record old { is_like = new.is_like })
      (with_likes
        (update_first (is_pair new.user_id new.video_id) (λ l. record l { is_like = new.is_like })
          w.social.likes)
        w),
)
rate now new none w =
    if refuses_like w new
    then (err database_error, w)
    else (ok new, like_inserted now new (with_likes (w.social.likes ++ new ∷ []) w))

-- The rating with the identity of the row that survives.
unfoldable pub upsert_like : Time → Like → Action Like
unfolding rate
upsert_like now like =
    round_trip database_error
      (λ w. rate now like (find (is_pair like.user_id like.video_id) w.social.likes) w)

unfoldable pub unrate : Time → Uuid → Uuid → Option Like → Action Unit
unfolding like_deleted
unrate now user video none w = (err like_not_found, w)
unrate now user video (some old) w =
    (ok tt, like_deleted now old (with_likes (remove_first (is_pair user video) w.social.likes) w))

unfoldable pub delete_like : Time → Uuid → Uuid → Action Unit
unfolding unrate
delete_like now user video =
    round_trip database_error
      (λ w. unrate now user video (find (is_pair user video) w.social.likes) w)

like_or : Option Like → Action Like
like_or none w = (err like_not_found, w)
like_or (some l) w = (ok l, w)

unfoldable pub get_like : Uuid → Uuid → Action Like
unfolding like_or
get_like user video =
    round_trip database_error (λ w. like_or (find (is_pair user video) w.social.likes) w)
