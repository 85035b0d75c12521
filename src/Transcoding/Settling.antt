-- ===== src/Transcoding/Settling.antt =====
-- A run that the database does not disturb settles the video (internal/service/transcoding_service.go).
use video_streaming_service.Common.{
  ℤ, Bool-cases, lt_int, ◌||◌, ℕ, suc, ◌≡◌, ◌⊎◌, inl, inr, refl, Bool, true, false, not, List, [],
  ◌∷◌, ◌++◌, Option, none, some, String, Result, ok, err, Error, arith, pos, ltb, if◌then◌else◌,
}
use video_streaming_service.Domain.User.{Uuid, Time}
use video_streaming_service.Domain.Video.{Video, VideoStatus, processing, ready, failed}
use video_streaming_service.Postgres.{World, Action}
use video_streaming_service.Postgres.Calls.{◌>>=◌, pure, raise, attempt, round_trip}
use video_streaming_service.Postgres.Videos.{
  set_row, exec, get_by_id, update_status, update_progress, update_duration, update_resolution,
  update_hls_info, mark_as_ready, mark_as_failed,
}
use video_streaming_service.Transcoding.Completion.{progressed}
use video_streaming_service.Transcoding.{
  can_start, progress_at, Tools, VideoMetadata, QualitySpec, quality_specs, thumbnail_of,
  transcode_all, hls_of, publish_hls, finish, assemble, encode, probe_and_encode, process_video,
}

module _ (id : Uuid) where
  -- The row is there, and no call will be refused.
  abbrev pub IsCalm : World → Type 0
  IsCalm w = (w.faults ≡ []) × ((v : Video) × (w.videos id ≡ some v))

  abbrev pub HasStatus : VideoStatus → World → Type 0
  HasStatus s w = (v : Video) × (w.videos id ≡ some v) × (v.status ≡ s)

  -- Code that returns, and leaves the row there.
  record Sure {A : Type 0} (m : Action A) : Type 0 where
    pub run : (w : World) → IsCalm w → ((a : A) × ((m w).0 ≡ ok a)) × IsCalm (m w).1

  -- Success and a ready video, or an error and a failed one.
  abbrev pub IsSettled : Result (Unit {0}) × World → Type 0
  IsSettled (r, w) =
      ((r ≡ ok tt) × HasStatus ready w) ⊎ (((e : Error) × (r ≡ err e)) × HasStatus failed w)

  record Settles (m : Action Unit) : Type 0 where
    pub run : (w : World) → IsCalm w → IsSettled (m w)

  module _ {A B : Type 0} where
    bind-Sure : (m : Action A) (f : A → Action B) → Sure m → ((a : A) → Sure (f a)) → Sure (m >>= f)
    unfolding ◌>>=◌
    bind-Sure m f hm hf = record {
      run =
          λ w h. let ((a, e), calm) = hm.run w h in let next = (hf a).run (m w).1 calm in rw e next;
    }

  bind-Settles :
      {A : Type 0} (m : Action A) (f : A → Action Unit)
      → Sure m
      → ((a : A) → Settles (f a))
      → Settles (m >>= f)
  unfolding ◌>>=◌
  bind-Settles m f hm hf = record {
    run = λ w h.
        let ((a, e), calm) = hm.run w h in let settled = (hf a).run (m w).1 calm in rw e settled;
  }

  if-Settles : (b : Bool) (m n : Action Unit) → Settles m → Settles n → Settles (if b then m else n)
  if-Settles true m n hm hn = hm
  if-Settles false m n hm hn = hn

  if-Sure : {A : Type 0} (b : Bool) (m n : Action A) → Sure m → Sure n → Sure (if b then m else n)
  if-Sure true m n hm hn = hm
  if-Sure false m n hm hn = hn

  pure-Sure : {A : Type 0} (a : A) → Sure (pure a)
  unfolding pure
  pure-Sure a = record { run = λ w h. ((a, refl), h) }

  -- A statement that writes a row writes it.
  exec-row :
      (change : Video → Result (Option Video)) (v u : Video) (w : World)
      → w.faults ≡ []
      → w.videos id ≡ some v
      → change v ≡ ok (some u)
      → ((exec id change w).0 ≡ ok tt)
        × ((exec id change w).1.faults ≡ [])
        × ((exec id change w).1.videos id ≡ some u)
  unfolding exec round_trip set_row
  exec-row change v u w quiet present written = ground (arith, quiet, present, written)

  exec-Sure : (change : Video → Video) → Sure (exec id (λ v. ok (some (change v))))
  exec-Sure change = record {
    run = λ w (quiet, (v, present)).
        let (done, quiet', present') =
          exec-row (λ x. ok (some (change x))) v (change v) w quiet present refl in
        ((tt, done), (quiet', (change v, present')));
  }

  attempt-Sure : (m : Action Unit) → Sure m → Sure (attempt m)
  unfolding attempt
  attempt-Sure m hm = record { run = λ w h. ((tt, refl), (hm.run w h).1) }

  module _ (now : Time) where
    update_status-Sure : (s : VideoStatus) → Sure (update_status now id s)
    unfolding update_status
    update_status-Sure s = exec-Sure _

    update_duration-Sure : (d : _) → Sure (update_duration now id d)
    unfolding update_duration
    update_duration-Sure d = exec-Sure _

    update_resolution-Sure : (s : String) → Sure (update_resolution now id s)
    unfolding update_resolution
    update_resolution-Sure s = exec-Sure _

    update_hls_info-Sure : (s : String) (b : Bool) → Sure (update_hls_info now id s b)
    unfolding update_hls_info
    update_hls_info-Sure s b = exec-Sure _

    -- The progress may be refused by the column, but the row stays.
    progress-Sure : (p : ℤ) → Sure (attempt (update_progress now id p))
    unfolding attempt update_progress exec round_trip set_row
    progress-Sure p = record {
      run = λ w (quiet, (v, present)). (
        (tt, refl),
        (
          ground (arith, quiet, present),
          elim (Bool-cases (lt_int p (pos 0) || lt_int (pos 100) p)) [
            | inl refused ↦ (v, ground (arith, quiet, present, refused))
            | inr fine ↦ (
              record v { transcoding_progress = p; updated_at = now },
              ground (arith, quiet, present, fine),
            )
          ],
        ),
      );
    }

    -- The end of a run that failed.
    failure-Settles : (e : Error) → Settles (attempt (mark_as_failed now id) >>= λ _. raise e)
    unfolding ◌>>=◌ attempt raise mark_as_failed
    failure-Settles e = record {
      run = λ w (quiet, (v, present)).
          let (done, quiet', present') =
            exec-row (λ x. ok (some (record x { status = failed; updated_at = now }))) v _ w quiet
              present refl in
          inr ((e, refl), (_, present', refl));
    }

    module _ (tools : Tools) where
      transcode_all-Sure :
          (height i : ℕ) (done : List String) (specs : List QualitySpec)
          → Sure (transcode_all tools now id height i done specs)
      unfolding transcode_all
      transcode_all-Sure height i done [] = pure-Sure done
      transcode_all-Sure height i done (spec ∷ specs) =
          let skip = transcode_all-Sure height (suc i) done specs in
          let kept = transcode_all-Sure height (suc i) (done ++ spec.name ∷ []) specs in
          if-Sure (ltb height spec.height) _ _ skip (
            bind-Sure _ _ (progress-Sure (progress_at i))
              (λ _. if-Sure (tools.transcodes spec.name) _ _ kept skip))

      publish_hls-Sure :
          (video_id : String) (qs : List String) → Sure (publish_hls tools now id video_id qs)
      unfolding publish_hls
      publish_hls-Sure video_id [] = pure-Sure tt
      publish_hls-Sure video_id (q ∷ qs) =
          if-Sure tools.writes_master _ _ (attempt-Sure _ (update_hls_info-Sure _ true))
            (pure-Sure tt)

      -- The last update of the progress leaves the status alone.
      last_progress-HasStatus :
          (w : World)
          → HasStatus ready w
          → HasStatus ready (attempt (update_progress now id (pos 100)) w).1
      last_progress-HasStatus w (v, present, is_ready) = elim (progressed now id w v present) [
        | inl same ↦ (v, same, is_ready)
        | inr changed ↦
            (record v { transcoding_progress = pos 100; updated_at = now }, changed, is_ready)
      ]

      finish-Settles : (qs : List String) → Settles (finish tools now id qs)
      unfolding finish mark_as_ready ◌>>=◌
      finish-Settles qs = record {
        run = λ w (quiet, (v, present)).
            let (done, quiet', present') = exec-row _ v _ w quiet present refl in
            let last =
              last_progress-HasStatus
                (mark_as_ready now id qs (thumbnail_of tools now id tools.thumbnail) w).1
                (_, present', refl) in
            rw done (inl (unfold attempt in refl, last));
      }

      assemble-Settles :
          (video_id : String) (qs : List String) → Settles (assemble tools now id video_id qs)
      unfolding assemble
      assemble-Settles video_id [] = failure-Settles _
      assemble-Settles video_id (q ∷ qs) = bind-Settles _ _ (progress-Sure (progress_at 4)) (λ _.
          bind-Settles _ _ (publish_hls-Sure video_id (hls_of tools now id (q ∷ qs)))
            (λ _. bind-Settles _ _ (progress-Sure (progress_at 5)) (λ _. finish-Settles (q ∷ qs))))

      encode-Settles :
          (video_id : String) (m : VideoMetadata) → Settles (encode tools now id video_id m)
      unfolding encode
      encode-Settles video_id m = bind-Settles _ _ (attempt-Sure _ (update_duration-Sure _)) (λ _.
          bind-Settles _ _ (attempt-Sure _ (update_resolution-Sure _)) (λ _.
            if-Settles (not tools.makes_dir) _ _ (failure-Settles _) (
              bind-Settles _ _ (transcode_all-Sure m.height 0 [] quality_specs)
                (λ qs. assemble-Settles video_id qs))))

      probe_and_encode-Settles :
          (video_id : String) (m : Option VideoMetadata)
          → Settles (probe_and_encode tools now id video_id m)
      unfolding probe_and_encode
      probe_and_encode-Settles video_id none = failure-Settles _
      probe_and_encode-Settles video_id (some m) = encode-Settles video_id m

get_by_id_present :
    (id : Uuid) (w : World) (v : Video)
    → w.faults ≡ []
    → w.videos id ≡ some v
    → get_by_id id w ≡ (ok v, w)
unfolding get_by_id round_trip
get_by_id_present id w v quiet present = ground (arith, quiet, present)

-- A run on a video that waits for one, with a database that carries every call out, ends in one of two
-- ways, whatever the tools do: it succeeds and the video is ready, or it reports an error and the
-- video has failed, so that a later run may start.
pub process_video-IsSettled :
    (tools : Tools) (now : Time) (id : Uuid) (video_id : String) (w : World) (v : Video)
    → w.faults ≡ []
    → w.videos id ≡ some v
    → can_start v.status ≡ true
    → IsSettled id (process_video tools now id video_id w)
unfolding process_video ◌>>=◌
process_video-IsSettled tools now id video_id w v quiet present startable =
    let started =
      bind-Settles id (update_status now id processing)
        (λ _. probe_and_encode tools now id video_id tools.metadata)
        (update_status-Sure id now processing)
        (λ _. probe_and_encode-Settles id now tools video_id tools.metadata) in
    rw (get_by_id_present id w v quiet present) (rw startable (started.run w (quiet, (v, present))))
