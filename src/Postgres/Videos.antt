-- ===== src/Postgres/Videos.antt =====
-- internal/repository/postgres/video_repository.go: the statements on one row.
use video_streaming_service.Common.{
  [], ◌∷◌, Done, ℤ, pos, lt_int, Bool, false, ◌||◌, List, Option, none, some, String, Result, ok,
  err, database_error, video_not_found, ◌==◌, if◌then◌else◌,
}
use mathlib.Core.Option as Option
use video_streaming_service.Domain.User.{Uuid, Time}
use video_streaming_service.Domain.Report.{ContentReport}
use video_streaming_service.Domain.Video.{is_id, Video, VideoStatus, ready, failed}
use video_streaming_service.Postgres.{World, Action}
use video_streaming_service.Postgres.Calls.{round_trip}
use video_streaming_service.Postgres.Cascade.{forget_video}

-- The table with a row written or removed.
unfoldable pub set_row : (Uuid → Option Video) → Uuid → Option Video → Uuid → Option Video
set_row videos id row j = if j == id then row else videos j

-- The table with a row changed, if it is there.
unfoldable pub alter_row : Uuid → (Video → Video) → (Uuid → Option Video) → Uuid → Option Video
alter_row id change videos j = if j == id then Option.map change (videos id) else videos j

-- A row that a constraint of the table refuses is an error, and nothing is written.
store : Uuid → Result (Option Video) → Action Unit
store id (err e) w = (err e, w)
store id (ok row) w = (ok tt, record w { videos = set_row w.videos id row })

on_row : Option Video → Uuid → (Video → Result (Option Video)) → Action Unit
unfolding store
on_row none id change w = (err video_not_found, w)
on_row (some v) id change w = store id (change v) w

-- `exec` of a statement on the row of an id: no row is ErrVideoNotFound.
unfoldable pub exec : Uuid → (Video → Result (Option Video)) → Action Unit
unfolding on_row
exec id change = round_trip database_error (λ w. on_row (w.videos id) id change w)

found : Option Video → Action Video
found none w = (err video_not_found, w)
found (some v) w = (ok v, w)

unfoldable pub get_by_id : Uuid → Action Video
unfolding found
get_by_id id = round_trip database_error (λ w. found (w.videos id) w)

-- The row that `Create` inserts: the columns that it does not name take their defaults.
unfoldable pub inserted : Video → Video
inserted v = record v {
  thumbnail_path = none;
  transcoding_progress = pos 0;
  available_qualities = List.[];
  hls_master_path = none;
  hls_ready = false;
  streaming_protocol = "progressive";
  category = "";
  tags = List.[];
  language = "en";
  view_count = pos 0;
  like_count = pos 0;
  comment_count = pos 0;
  processed_at = none;
}

insert : Option Video → Video → Action Unit
insert (some _) v w = (err database_error, w)
insert none v w = (ok tt, record w { videos = set_row w.videos v.id (some (inserted v)) })

-- A second row of the same primary key is refused.
unfoldable pub create : Video → Action Unit
unfolding insert
create v = round_trip database_error (λ w. insert (w.videos v.id) v w)

-- The foreign key of the reports: the ones that name the row's video go with it (`ON DELETE CASCADE`
-- in migrations/000006_create_reports_and_audit.up.sql).
unfoldable pub without_video : Uuid → List ContentReport → List ContentReport
without_video id [] = []
without_video id (r ∷ rs) =
    let rest = without_video id rs in if is_id r.video_id id then rest else r ∷ rest

cascade : Time → Uuid → Done × World → Done × World
cascade now id (err e, w) = (err e, w)
cascade now id (ok a, w) =
    (ok a, record w { reports = without_video id w.reports; social = forget_video now id w.social })

-- `now` is the database's NOW().
unfoldable pub delete : Time → Uuid → Action Unit
unfolding without_video cascade
delete now id w = cascade now id (exec id (λ _. ok none) w)

unfoldable pub update_status : Time → Uuid → VideoStatus → Action Unit
update_status now id status =
    exec id (λ v. ok (some (record v { status = status; updated_at = now })))

-- The column's CHECK refuses what is no percentage.
unfoldable pub update_progress : Time → Uuid → ℤ → Action Unit
update_progress now id progress = exec id (λ v.
    if lt_int progress (pos 0) || lt_int (pos 100) progress
    then err database_error
    else ok (some (record v { transcoding_progress = progress; updated_at = now })))

unfoldable pub update_duration : Time → Uuid → ℤ → Action Unit
update_duration now id duration =
    exec id (λ v. ok (some (record v { duration = duration; updated_at = now })))

unfoldable pub update_resolution : Time → Uuid → String → Action Unit
update_resolution now id resolution =
    exec id (λ v. ok (some (record v { original_resolution = resolution; updated_at = now })))

unfoldable pub update_hls_info : Time → Uuid → String → Bool → Action Unit
update_hls_info now id hls_master_path hls_ready = exec id (λ v. ok (
    some (record v {
      hls_master_path = some hls_master_path;
      hls_ready = hls_ready;
      streaming_protocol = "hls";
      updated_at = now;
    })))

unfoldable pub mark_as_ready : Time → Uuid → List String → String → Action Unit
mark_as_ready now id qualities thumbnail_path = exec id (λ v. ok (
    some (record v {
      status = ready;
      available_qualities = qualities;
      thumbnail_path = some thumbnail_path;
      transcoding_progress = pos 100;
      processed_at = some now;
      updated_at = now;
    })))

unfoldable pub mark_as_failed : Time → Uuid → Action Unit
mark_as_failed now id = exec id (λ v. ok (some (record v { status = failed; updated_at = now })))
