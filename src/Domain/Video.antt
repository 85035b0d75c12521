-- ===== src/Domain/Video.antt =====
-- internal/domain/video.go. A time is a number of nanoseconds; `now` is the reading of time.Now().
pub mod Lifecycle
use Prim.Native.String.{len}
use video_streaming_service.Common.{
  ℕ, ℤ, pos, lt_int, ◌*◌, Bool, true, false, not, ◌&&◌, ◌||◌, List, [], Option, none, some, String,
  str_eq, length, Result, Done, ok, err, invalid_title, title_too_long, invalid_file_size,
  file_size_too_large, invalid_filename, invalid_mime_type, invalid_progress, ◌>>=◌, ◌>>◌, fail_if,
  ltb, ◌==◌, if◌then◌else◌,
}
use video_streaming_service.Common.Text.{concat}
use video_streaming_service.Domain.User.{Uuid, Time, given}

pub data VideoStatus : Type 0 where
  uploading processing ready failed : VideoStatus

abbrev pub status_eq : VideoStatus → VideoStatus → Bool
status_eq uploading uploading = true
status_eq processing processing = true
status_eq ready ready = true
status_eq failed failed = true
status_eq _ _ = false

-- `type VideoVisibility string`: any string, and three constants.
abbrev pub VideoVisibility : Type 0
VideoVisibility = String

abbrev pub visibility_public : VideoVisibility
visibility_public = "public"

abbrev pub visibility_private : VideoVisibility
visibility_private = "private"

abbrev pub visibility_unlisted : VideoVisibility
visibility_unlisted = "unlisted"

unfoldable pub is_valid : VideoVisibility → Bool
is_valid v =
    str_eq v visibility_public || str_eq v visibility_private || str_eq v visibility_unlisted

pub record Video : Type 0 where
  pub id : Uuid
  pub user_id : Option Uuid
  pub title : String
  pub description : String
  pub filename : String
  pub file_path : String
  pub file_size : ℤ
  pub duration : ℤ
  pub status : VideoStatus
  pub visibility : VideoVisibility
  pub mime_type : String
  pub original_resolution : String
  pub transcoding_progress : ℤ
  pub available_qualities : List String
  pub hls_ready : Bool
  pub streaming_protocol : String
  pub thumbnail_path : Option String
  pub hls_master_path : Option String
  pub category : String
  pub tags : List String
  pub language : String
  pub view_count : ℤ
  pub like_count : ℤ
  pub comment_count : ℤ
  pub created_at : Time
  pub updated_at : Time
  pub processed_at : Option Time

-- `VideoThumbnailURL` and `VideoHLSURL` of the text of an id
unfoldable pub video_thumbnail_url : String → String
video_thumbnail_url id = concat "/api/v1/videos/" (concat id "/thumbnail")

unfoldable pub video_hls_url : String → String
video_hls_url id = concat "/api/v1/videos/" (concat id "/hls/master.m3u8")

-- The two fields that `MarshalJSON` adds; "" is left out of the JSON. `print_id` is UUID.String.
unfoldable pub marshal_urls : (Uuid → String) → Video → String × String
unfolding video_thumbnail_url video_hls_url
marshal_urls print_id v = (
  if given v.thumbnail_path then video_thumbnail_url (print_id v.id) else "",
  if v.hls_ready then video_hls_url (print_id v.id) else "",
)

abbrev pub is_id : Option Uuid → Uuid → Bool
is_id none id = false
is_id (some owner) id = owner == id

unfoldable pub is_owned_by : Video → Uuid → Bool
is_owned_by v user_id = is_id v.user_id user_id

unfoldable pub is_publicly_visible : Video → Bool
is_publicly_visible v = str_eq v.visibility visibility_public && status_eq v.status ready

unfoldable pub validate : Video → Done
validate v = do
  fail_if (str_eq v.title "") invalid_title
  fail_if (ltb 255 (len v.title)) title_too_long
  fail_if (not (lt_int (pos 0) v.file_size)) invalid_file_size
  fail_if (lt_int (pos (10 * 1024 * 1024 * 1024)) v.file_size) file_size_too_large
  fail_if (str_eq v.filename "") invalid_filename
  fail_if (str_eq v.mime_type "") invalid_mime_type
  ok tt

-- The video that `NewVideo` builds before it validates it; `fresh` is uuid.New().
unfoldable pub draft_video : Uuid → Time → String → String → String → String → String → ℤ → Video
draft_video fresh now title description filename file_path mime_type file_size = record {
  id = fresh;
  user_id = none;
  title = title;
  description = description;
  filename = filename;
  file_path = file_path;
  file_size = file_size;
  duration = pos 0;
  status = uploading;
  visibility = visibility_public;
  mime_type = mime_type;
  original_resolution = "";
  transcoding_progress = pos 0;
  available_qualities = [];
  hls_ready = false;
  streaming_protocol = "";
  thumbnail_path = none;
  hls_master_path = none;
  category = "";
  tags = [];
  language = "";
  view_count = pos 0;
  like_count = pos 0;
  comment_count = pos 0;
  created_at = now;
  updated_at = now;
  processed_at = none;
}

unfoldable pub new_video :
    Uuid → Time → String → String → String → String → String → ℤ → Result Video
new_video fresh now title description filename file_path mime_type file_size =
    let video = draft_video fresh now title description filename file_path mime_type file_size in
    do validate video; ok video

unfoldable pub is_processing : Video → Bool
is_processing v = status_eq v.status processing

unfoldable pub can_be_streamed : Video → Bool
can_be_streamed v = status_eq v.status ready && ltb 0 (length v.available_qualities)

unfoldable pub mark_as_processing : Time → Video → Video
mark_as_processing now v = record v {
  status = processing;
  transcoding_progress = pos 0;
  updated_at = now;
}

unfoldable pub mark_as_ready : Time → List String → String → Video → Video
mark_as_ready now qualities thumbnail_path v = record v {
  status = ready;
  available_qualities = qualities;
  thumbnail_path = some thumbnail_path;
  transcoding_progress = pos 100;
  processed_at = some now;
  updated_at = now;
}

unfoldable pub mark_as_failed : Time → Video → Video
mark_as_failed now v = record v { status = failed; updated_at = now }

unfoldable pub update_progress : Time → ℤ → Video → Done × Video
update_progress now percent v =
    if lt_int percent (pos 0) || lt_int (pos 100) percent
    then (err invalid_progress, v)
    else (ok tt, record v { transcoding_progress = percent; updated_at = now })
