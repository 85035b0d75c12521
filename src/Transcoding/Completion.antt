-- ===== src/Transcoding/Completion.antt =====
-- What a processed video looks like (internal/service/transcoding_service.go).
use mathlib.Core.List.{append-nil, append_assoc}
use video_streaming_service.Common.{
  ap, ◌⊎◌, ℕ, suc, pos, ◌≡◌, refl, not, List, [], ◌∷◌, ◌++◌, Option, none, some, String, Result, ok,
  arith, Option-cases, Result-cases, inl, inr, ◌∙◌, sym, ok-injective, ltb, if◌then◌else◌,
}
use video_streaming_service.Domain.User.{Uuid, Time}
use video_streaming_service.Domain.Video.{Video, ready}
use video_streaming_service.Postgres.{World}
use video_streaming_service.Postgres.Calls.{
  Keeps, Ends, ends_rules, bind-Ends_value, bind-Ends, if-Ends, raise-Ends, fault_cases,
  bind-Ends_kept, attempt, ◌>>=◌, pure, round_trip,
}
use video_streaming_service.Postgres.Videos.{exec, update_progress, mark_as_ready, set_row}
use video_streaming_service.Transcoding.{
  can_start, progress_at, Tools, VideoMetadata, QualitySpec, quality_specs, thumbnail_of,
  transcode_all, finish, assemble, encode, probe_and_encode, process_video,
}

-- The rungs that a source of some height gets: those that are no higher and whose encoding succeeds,
-- in the order of the ladder.
abbrev pub renditions : Tools → ℕ → List QualitySpec → List String
renditions tools height [] = []
renditions tools height (spec ∷ specs) =
    let rest = renditions tools height specs in
    if ltb height spec.height
    then rest
    else if tools.transcodes spec.name
    then spec.name ∷ rest
    else rest

-- A row as `MarkAsReady` leaves it.
pub record IsReady (qualities : List String) (thumbnail : String) (now : Time) (v : Video)
    : Type 0 where
  pub status : v.status ≡ ready
  pub qualities_kept : v.available_qualities ≡ qualities
  pub thumbnail_kept : v.thumbnail_path ≡ some thumbnail
  pub progress : v.transcoding_progress ≡ pos 100
  pub processed : v.processed_at ≡ some now

abbrev pub Ready : Uuid → List String → String → Time → World → Type 0
Ready id qualities thumbnail now w =
    (v : Video) × (w.videos id ≡ some v) × IsReady qualities thumbnail now v

-- A statement that is carried out has found its row and written it.
exec-ok :
    (id : Uuid) (change : Video → Result (Option Video)) (w : World) (a : Unit {0})
    → (exec id change w).0 ≡ ok a
    → (v : Video) × (row : Option Video) × (change v ≡ ok row)
      × ((exec id change w).1.videos id ≡ row)
unfolding exec round_trip set_row
exec-ok id change w a h = elim (Option-cases (w.videos id)) [
  | inl absent ↦ absurd (ground (arith, absent))
  | inr (v, present) ↦ elim (Result-cases (change v)) [
    | inl (row, written) ↦ (v, row, written, ground (arith, present, written))
    | inr (e, refused) ↦ absurd (ground (arith, present, refused))
  ]
]

module _ (now : Time) (id : Uuid) where
  mark_as_ready-Ready :
      (qs : List String) (t : String) (w : World) (a : Unit {0})
      → (mark_as_ready now id qs t w).0 ≡ ok a
      → Ready id qs t now (mark_as_ready now id qs t w).1
  unfolding mark_as_ready
  mark_as_ready-Ready qs t w a h =
      let (v, row, written, stored) = exec-ok id _ w a h in
      (_, stored ∙ sym (ok-injective written), ground arith)

  pub progressed :
      (w : World) (v : Video)
      → w.videos id ≡ some v
      → let row = (attempt (update_progress now id (pos 100)) w).1.videos id in
        (row ≡ some v)
        ⊎ (row ≡ some (record v { transcoding_progress = pos 100; updated_at = now }))
  unfolding attempt update_progress exec round_trip set_row
  progressed w v present = elim (fault_cases w.faults) [
    | inl (rest, refused) ↦ inl (ground (arith, refused, present))
    | inr (inl none_left) ↦ inr (ground (arith, none_left, present))
    | inr (inr (rest, carried)) ↦ inr (ground (arith, carried, present))
  ]

  -- The last update of the progress, carried out or not, leaves the row as ready as it was.
  last_progress-Ready :
      (qs : List String) (t : String)
      → Keeps (Ready id qs t now) (attempt (update_progress now id (pos 100)))
  last_progress-Ready qs t = record {
    run = λ w (v, present, is_ready). elim (progressed w v present) [
      | inl same ↦ (v, same, is_ready)
      | inr changed ↦ (
        record v { transcoding_progress = pos 100; updated_at = now },
        changed,
        ground (arith, is_ready),
      )
    ];
  }

  module _ (tools : Tools) where
    finish-Ready :
        (qs : List String)
        → Ends
            (Ready id qs (thumbnail_of tools now id tools.thumbnail) now)
            (finish tools now id qs)
    unfolding finish
    finish-Ready qs =
        bind-Ends_kept _ _ (record { run = mark_as_ready-Ready qs _ })
          (λ _. last_progress-Ready qs _)

    assemble-Ready :
        (video_id : String) (qs : List String)
        → Ends
            (Ready id qs (thumbnail_of tools now id tools.thumbnail) now)
            (assemble tools now id video_id qs)
    unfolding assemble
    assemble-Ready video_id [] = search ends_rules
    assemble-Ready video_id (q ∷ qs) = search (ends_rules, finish-Ready)

    -- The loop returns the rungs, whatever the database does.
    transcode_all-renditions :
        (height i : ℕ) (done : List String) (specs : List QualitySpec) (w : World)
        → (transcode_all tools now id height i done specs w).0
          ≡ ok (done ++ renditions tools height specs)
    unfolding transcode_all ◌>>=◌ attempt pure
    transcode_all-renditions height i done [] w = ap ok (sym (append-nil done))
    transcode_all-renditions height i done (spec ∷ specs) w =
        let w' = (attempt (update_progress now id (progress_at i)) w).1 in
        ground (
          arith,
          transcode_all-renditions height (suc i) done specs w,
          transcode_all-renditions height (suc i) done specs w',
          transcode_all-renditions height (suc i) (done ++ spec.name ∷ []) specs w',
          append_assoc done (spec.name ∷ []) (renditions tools height specs),
        )

    encode-Ready :
        (video_id : String) (m : VideoMetadata)
        → Ends
            (Ready id
              (renditions tools m.height quality_specs)
              (thumbnail_of tools now id tools.thumbnail)
              now)
            (encode tools now id video_id m)
    unfolding encode
    encode-Ready video_id m =
        let transcoding =
          bind-Ends_value _ _ _ (transcode_all-renditions m.height 0 [] quality_specs)
            (assemble-Ready video_id _) in
        bind-Ends _ _ (λ _.
          bind-Ends _ _ (λ _. if-Ends (not tools.makes_dir) _ _ (search ends_rules) transcoding))

    -- What the video of a run that succeeds has become.
    Processed : World → Type 0
    Processed w =
        (m : VideoMetadata) × (tools.metadata ≡ some m)
        × Ready id (renditions tools m.height quality_specs)
            (thumbnail_of tools now id tools.thumbnail) now w

    probe_and_encode-Processed :
        (video_id : String) (m : Option VideoMetadata)
        → tools.metadata ≡ m
        → Ends Processed (probe_and_encode tools now id video_id m)
    unfolding probe_and_encode Processed
    probe_and_encode-Processed video_id none probed = search ends_rules
    probe_and_encode-Processed video_id (some m) probed = record {
      run = λ w a h. (m, probed, (encode-Ready video_id m).run w a h);
    }

    process_video-Ends : (video_id : String) → Ends Processed (process_video tools now id video_id)
    unfolding process_video
    process_video-Ends video_id =
        let probing = probe_and_encode-Processed video_id tools.metadata refl in
        bind-Ends _ _ (λ video.
          if-Ends (not (can_start video.status)) _ _ (raise-Ends _) (bind-Ends _ _ (λ _. probing)))

-- A run that reports success has probed the file and left the video ready: its qualities are exactly
-- the rungs of the ladder that are no higher than the source and whose encoding succeeded, in the
-- ladder's order, its thumbnail is the one that was made (or none), its progress is 100 and its time
-- of processing is set.
pub process_video-Processed :
    (tools : Tools) (now : Time) (id : Uuid) (video_id : String) (w : World)
    → (process_video tools now id video_id w).0 ≡ ok tt
    → (m : VideoMetadata) × (tools.metadata ≡ some m)
      × ((v : Video) × ((process_video tools now id video_id w).1.videos id ≡ some v)
          × IsReady
              (renditions tools m.height quality_specs)
              (thumbnail_of tools now id tools.thumbnail)
              now
              v)
unfolding Processed
process_video-Processed tools now id video_id w h =
    (process_video-Ends now id tools video_id).run w tt h
