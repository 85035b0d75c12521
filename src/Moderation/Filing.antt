-- ===== src/Moderation/Filing.antt =====
-- Requests that file reports at the same time (CreateReport of internal/service/moderation_service.go). Each
-- one checks and then inserts, and others may do either in between: a schedule is the sequence of these steps.
use video_streaming_service.Common.{
  ℕ, zero, suc, ◌≡◌, ◌≤◌, leb, Result, Result-cases, inl, inr, ok, err, List, [], ◌∷◌, Option, none,
  some, arith, if◌then◌else◌,
}
use video_streaming_service.Domain.User.{Uuid}
use video_streaming_service.Domain.Report.{ContentReport}
use video_streaming_service.Postgres.{World}
use video_streaming_service.Postgres.Calls.{◌>>=◌}
use video_streaming_service.Postgres.Moderated.{count_reports, create_row}
use video_streaming_service.Moderation.{admit, create_report}

-- The database, and the reports that have passed the check and are not inserted yet.
pub record Desk : Type 0 where
  pub world : World
  pub waiting : List ContentReport

abbrev pub idle : World → Desk
idle w = record { world = w; waiting = [] }

-- A request passes the check or is refused; the request at some place of those that wait inserts its row.
pub data Step : Type 0 where
  checks : ContentReport → Step
  inserts : ℕ → Step

abbrev pub nth : ℕ → List ContentReport → Option ContentReport
nth n [] = none
nth zero (r ∷ rs) = some r
nth (suc n) (r ∷ rs) = nth n rs

abbrev pub without_nth : ℕ → List ContentReport → List ContentReport
without_nth n [] = []
without_nth zero (r ∷ rs) = rs
without_nth (suc n) (r ∷ rs) = r ∷ without_nth n rs

unfoldable pub checked : ContentReport → List ContentReport → Result (Unit {0}) × World → Desk
checked r waiting (ok _, w) = record { world = w; waiting = r ∷ waiting }
checked r waiting (err e, w) = record { world = w; waiting = waiting }

-- The row is written or the call fails; the request is over in either case.
unfoldable pub inserted : Option ContentReport → ℕ → Desk → Desk
inserted none n d = d
inserted (some r) n d = record {
  world = (create_row r d.world).1;
  waiting = without_nth n d.waiting;
}

unfoldable pub step : Step → Desk → Desk
unfolding checked inserted
step (checks r) d = checked r d.waiting (admit r d.world)
step (inserts n) d = inserted (nth n d.waiting) n d

unfoldable pub run_schedule : List Step → Desk → Desk
unfolding step
run_schedule [] d = d
run_schedule (s ∷ ss) d = run_schedule ss (step s d)

abbrev greater : ℕ → ℕ → ℕ
greater a b = if leb a b then b else a

pub greater-le : (a b k : ℕ) → greater a b ≤ k → (a ≤ k) × (b ≤ k)
greater-le a b k h = (ground (arith, h), ground (arith, h))

-- The most requests of a reporter on a video that stand between their two statements at any time.
unfoldable pub most_at_once : Uuid → Uuid → List Step → Desk → ℕ
unfolding step
most_at_once reporter video [] d = 0
most_at_once reporter video (s ∷ ss) d =
    greater (count_reports reporter video (step s d).waiting)
      (most_at_once reporter video ss (step s d))

-- One request alone is `create_report`.
alone-create_report :
    (r : ContentReport) (w : World)
    → (run_schedule (checks r ∷ inserts 0 ∷ []) (idle w)).world ≡ (create_report r w).1
unfolding run_schedule step checked inserted create_report ◌>>=◌
alone-create_report r w = elim (Result-cases (admit r w).0) [
  | inl (_, passed) ↦ ground (arith, passed)
  | inr (e, refused) ↦ ground (arith, refused)
]
