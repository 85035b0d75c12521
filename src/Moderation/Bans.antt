-- ===== src/Moderation/Bans.antt =====
-- What a ban does (internal/service/moderation_service.go).
use video_streaming_service.Common.{
  ℕ, ◌≡◌, inl, inr, refl, true, Option, none, some, String, ok, arith, ltb, ◌+◌, Option-cases,
}
use video_streaming_service.Domain.User.{User, Uuid, Time, is_currently_banned}
use video_streaming_service.Domain.Report.{ContentReport}
use video_streaming_service.Postgres.{World}
use video_streaming_service.Postgres.Calls.{
  Keeps, Ends, bind-Ends_kept, bind-Ends_value, ◌>>=◌, pure, pure-Keeps, round_trip,
}
use video_streaming_service.Postgres.Moderated as Rows
use video_streaming_service.Moderation.{ban_target, act, conclude, review_report, ban_user}
use video_streaming_service.Moderation.Reviews.{get_report-cases}

-- The user is there and is banned at every time.
abbrev pub IsBanned : Uuid → World → Type 0
IsBanned user w =
    (u : User) × (w.users user ≡ some u) × ((t : Time) → is_currently_banned t u ≡ true)

-- The statement, carried out, has left the row as it says.
ban_user-row :
    (now : Time) (user : Uuid) (reason : String) (until : Option Time) (w : World)
    → (Rows.ban_user now user reason until w).0 ≡ ok tt
    → (u : User) × ((Rows.ban_user now user reason until w).1.users user ≡ some u)
      × (u.is_banned ≡ true)
      × (u.ban_expiry ≡ until)
unfolding Rows.ban_user Rows.exec_user Rows.set_user round_trip
ban_user-row now user reason until w h = elim (Option-cases (w.users user)) [
  | inl absent ↦ absurd (ground (arith, absent))
  | inr (u, present) ↦ (
    record u {
      is_banned = true;
      ban_reason = some reason;
      ban_expiry = until;
      banned_at = some now;
      updated_at = now;
    },
    ground (arith, present),
    refl,
    refl,
  )
]

banned_always :
    (u : User)
    → u.is_banned ≡ true
    → u.ban_expiry ≡ none
    → (t : Time) → is_currently_banned t u ≡ true
unfolding is_currently_banned
banned_always u banned unlimited t = ground arith

ban_user-IsBanned :
    (now : Time) (user : Uuid) (reason : String)
    → Ends (IsBanned user) (Rows.ban_user now user reason none)
ban_user-IsBanned now user reason = record {
  run = λ w a h.
      let (u, present, banned, unlimited) = ban_user-row now user reason none w h in
      (u, present, banned_always u banned unlimited);
}

update_report-users :
    (new : ContentReport) (w : World) → (Rows.update_report new w).1.users ≡ w.users
unfolding Rows.update_report round_trip
update_report-users new w = ground arith

update_report-IsBanned :
    (user : Uuid) (new : ContentReport) → Keeps (IsBanned user) (Rows.update_report new)
update_report-IsBanned user new = record {
  run = λ w (u, present, banned). (u, ground (arith, present, update_report-users new w), banned);
}

conclude-IsBanned :
    (now : Time) (moderator : Uuid) (notes : String) (report : ContentReport) (user : Uuid)
    → report.user_id ≡ some user
    → Ends (IsBanned user) (conclude now moderator "ban_user" notes report)
unfolding conclude act ban_target pure
conclude-IsBanned now moderator notes report user named =
    bind-Ends_kept _ _
      (rw named (
        bind-Ends_value _ _ user (λ w. refl)
          (bind-Ends_kept _ _ (ban_user-IsBanned now user notes) (λ _. pure-Keeps _))))
      (λ new. update_report-IsBanned user new)

-- A review of a report on a user that orders a ban and succeeds leaves that user banned, whatever the
-- time.
pub review_report-IsBanned :
    (now : Time) (id moderator : Uuid) (notes : String) (w : World) (r : ContentReport)
    (user : Uuid)
    → Rows.find_report id w.reports ≡ some r
    → r.user_id ≡ some user
    → (review_report now id moderator "ban_user" notes w).0 ≡ ok tt
    → IsBanned user (review_report now id moderator "ban_user" notes w).1
unfolding review_report ◌>>=◌
review_report-IsBanned now id moderator notes w r user found named h =
    elim (get_report-cases id w r found) [
      | inl lost ↦ absurd (ground (arith, lost))
      | inr read ↦
          let w' = (Rows.get_report id w).1 in
          let done : (conclude now moderator "ban_user" notes r w').0 ≡ ok tt =
            ground (arith, read) in
          let last = (conclude-IsBanned now moderator notes r user named).run w' tt done in
          (last.0, ground (arith, read, last.1), last.2)
    ]

-- A ban of some duration that succeeds holds until it ends and no longer.
pub ban_user-lasts :
    (now : Time) (user : Uuid) (reason : String) (duration : ℕ) (w : World)
    → (ban_user now user reason (some duration) w).0 ≡ ok tt
    → (u : User) × ((ban_user now user reason (some duration) w).1.users user ≡ some u)
      × ((t : Time) → is_currently_banned t u ≡ ltb t (now + duration))
unfolding ban_user is_currently_banned
ban_user-lasts now user reason duration w h =
    let (u, present, banned, until) = ban_user-row now user reason (some (now + duration)) w h in
    (u, present, λ t. ground (arith, banned, until))
