-- ===== src/Postgres/Moderated.antt =====
-- internal/repository/postgres/report_repository.go, and the bans and the read by id of
-- user_repository.go.
use video_streaming_service.Common.{
  ℕ, suc, Bool, true, false, not, ◌&&◌, ◌||◌, List, [], ◌∷◌, ◌++◌, Option, none, some, String, ok,
  err, length, database_error, user_not_found, report_not_found, ltb, ◌==◌, if◌then◌else◌,
}
use video_streaming_service.Common.Text.{codes}
use video_streaming_service.Domain.User.{User, Uuid, Time, is_some, is_deleted}
use video_streaming_service.Domain.Video.{is_id}
use video_streaming_service.Domain.Report.{ContentReport, is_valid_type}
use video_streaming_service.Postgres.{World, Action}
use video_streaming_service.Postgres.Calls.{round_trip}

-- The users with a row written.
unfoldable pub set_user : Uuid → User → (Uuid → Option User) → Uuid → Option User
set_user id row users j = if j == id then some row else users j

on_user : Option User → Uuid → (User → User) → Action Unit
on_user none id change w = (err user_not_found, w)
on_user (some u) id change w =
    if is_deleted u
    then (err user_not_found, w)
    else (ok tt, record w { users = set_user id (change u) w.users })

-- `execUser`: a row that is deleted softly counts as missing.
unfoldable pub exec_user : Uuid → (User → User) → Action Unit
unfolding on_user
exec_user id change = round_trip database_error (λ w. on_user (w.users id) id change w)

user_or : Option User → Action User
user_or none w = (err user_not_found, w)
user_or (some u) w = if is_deleted u then (err user_not_found, w) else (ok u, w)

unfoldable pub get_user : Uuid → Action User
unfolding user_or
get_user id = round_trip database_error (λ w. user_or (w.users id) w)

unfoldable pub ban_user : Time → Uuid → String → Option Time → Action Unit
ban_user now id reason until = exec_user id (λ u. record u {
  is_banned = true;
  ban_reason = some reason;
  ban_expiry = until;
  banned_at = some now;
  updated_at = now;
})

unfoldable pub unban_user : Time → Uuid → Action Unit
unban_user now id = exec_user id (λ u. record u {
  is_banned = false;
  ban_reason = none;
  ban_expiry = none;
  banned_at = none;
  banned_by = none;
  updated_at = now;
})

unfoldable pub find_report : Uuid → List ContentReport → Option ContentReport
find_report id [] = none
find_report id (r ∷ rs) = let rest = find_report id rs in if r.id == id then some r else rest

report_or : Option ContentReport → Action ContentReport
report_or none w = (err report_not_found, w)
report_or (some r) w = (ok r, w)

unfoldable pub get_report : Uuid → Action ContentReport
unfolding report_or
get_report id = round_trip database_error (λ w. report_or (find_report id w.reports) w)

-- The columns that `Update` writes.
abbrev pub reviewed_as : ContentReport → ContentReport → ContentReport
reviewed_as new old = record old {
  status = new.status;
  reviewed_by = new.reviewed_by;
  reviewed_at = new.reviewed_at;
  action = new.action;
  updated_at = new.updated_at;
}

unfoldable pub rewrite_report : ContentReport → List ContentReport → List ContentReport
rewrite_report new [] = []
rewrite_report new (r ∷ rs) =
    let rest = rewrite_report new rs in (if r.id == new.id then reviewed_as new r else r) ∷ rest

abbrev pub is_user : World → Option Uuid → Bool
is_user w none = true
is_user w (some id) = is_some (w.users id)

abbrev pub is_video : World → Option Uuid → Bool
is_video w none = true
is_video w (some id) = is_some (w.videos id)

abbrev pub too_long : Option String → Bool
too_long none = false
too_long (some s) = ltb 100 (length (codes s))

-- A row that is missing is no error; the reviewer must be a user, and the action fits its column.
unfoldable pub update_report : ContentReport → Action Unit
update_report new = round_trip database_error (λ w.
    if is_some (find_report new.id w.reports)
      && (not (is_user w new.reviewed_by) || too_long new.action)
    then (err database_error, w)
    else (ok tt, record w { reports = rewrite_report new w.reports }))

-- What the table takes: a new key, a target, the columns' types and the rows that they refer to.
abbrev pub fits : World → ContentReport → Bool
fits w r =
    not (is_some (find_report r.id w.reports))
    && ((is_some r.video_id || (is_some r.user_id || is_some r.comment_id))
        && (is_valid_type r.report_type
            && (not (too_long (some r.reason))
                && (is_video w r.video_id
                    && (is_user w r.user_id && is_user w (some r.reporter_id))))))

-- The columns that the statement does not name are null.
unfoldable pub create_row : ContentReport → Action Unit
create_row r = round_trip database_error (λ w.
    if fits w r
    then (
      ok tt,
      record w {
        reports =
            w.reports ++ record r { reviewed_by = none; reviewed_at = none; action = none } ∷ [];
      },
    )
    else (err database_error, w))

unfoldable pub count_reports : Uuid → Uuid → List ContentReport → ℕ
count_reports reporter video [] = 0
count_reports reporter video (r ∷ rs) =
    let rest = count_reports reporter video rs in
    if r.reporter_id == reporter && is_id r.video_id video then suc rest else rest

unfoldable pub count_by_reporter_and_video : Uuid → Uuid → Action ℕ
count_by_reporter_and_video reporter video =
    round_trip database_error (λ w. (ok (count_reports reporter video w.reports), w))
