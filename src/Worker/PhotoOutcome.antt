-- ===== src/Worker/PhotoOutcome.antt =====
-- backend/app/face.py: the status of a photo when one of its jobs has completed.
use race_frame.Prelude.{
  ℕ, ◌≡◌, refl, sym, ap, ◌∙◌, subst, Bool, true, false, ◌&&◌, ◌==◌, List, [], ◌∷◌, map, inl, inr,
  some, arith, Bool-cases, keep, not, is_empty, all, if◌then◌else◌,
}
use race_frame.Http.{ok, ok-injective}
use race_frame.Recognition.Tables.{Tables}
use race_frame.Worker.Job.{
  Job, JobStatus, JobType, Model, photo_job, Db, PhotoStatus, same_model, is_terminal,
}
use race_frame.Worker.Session.{
  Row, Session, live_of, stored_of, flush_row, flush, save, commit, open_session, select_statuses,
  session_local_autoflush,
}
use race_frame.Worker.Attempt.{Current}
use race_frame.Worker.Parents.{
  is_of_photo, all_done, photo_outcome, settle_photo, mark_photo_ready_if_jobs_done,
}
use race_frame.Worker.Reading.{live-loaded, find_job-key}
use race_frame.Worker.Report.{find_job}
use race_frame.Worker.Settled.{opened, committed_by, completed_here, update_self, of_its_photo}
use race_frame.Worker.Completes.{completed_with}
use race_frame.Worker.Leaves.{live-mark_photo, last, finish_photo-Leaves}
use race_frame.Worker.Complete.{Work, CompletionOutside, cleared, completed_job}
use race_frame.Worker.CompletePhoto.{
  CompletePhotoJobRequest, finish_photo, complete_photo_ocr_job, complete_photo_face_job,
  complete_by_type, complete_photo_job,
}
use race_frame.Worker.CompleteRequest.{complete_request}

-- The statuses of a photo's jobs in the committed rows.
abbrev pub statuses_of : ℕ → List Job → List JobStatus
statuses_of photo_id jobs = map (λ (row : Job). row.status) (keep (is_of_photo photo_id) jobs)

-- What those statuses make of the photo.
abbrev pub settled : List JobStatus → PhotoStatus
settled statuses = if all_done statuses then photo_outcome statuses else PhotoStatus.processing

find-filled :
    (condition : Job → Bool) (model : Model) (job_id : ℕ) (jobs : List Job) {job : Job}
    → find_job model job_id jobs ≡ some job
    → condition job ≡ true
    → is_empty (map (λ (row : Job). row.status) (keep condition jobs)) ≡ false
unfolding find_job keep
find-filled condition model job_id [] e c = cc
find-filled condition model job_id (row ∷ rows) {job} e c =
    elim (Bool-cases (row.id == job_id && same_model row.model model)) [
      | inl hit ↦ ground arith
      | inr miss ↦ ground (arith, find-filled condition model job_id rows (rw miss at e) c)
    ]

stored-flush :
    (rows : List Row) → map stored_of (map flush_row rows) ≡ map live_of (map flush_row rows)
stored-flush [] = refl
stored-flush (row ∷ rows) = ap (◌∷◌ row.live) (stored-flush rows)

settle_photo-settled :
    (photo_id : ℕ) (statuses : List JobStatus) (s : Session)
    → is_empty statuses ≡ false
    → (settle_photo photo_id statuses s).parents.photos photo_id ≡ settled statuses
unfolding settle_photo
settle_photo-settled photo_id [] s h = cc
settle_photo-settled photo_id (status ∷ statuses) s h =
    elim (Bool-cases (all is_terminal (status ∷ statuses))) [
      | inl done ↦
          rw done (update_self s.parents.photos photo_id (photo_outcome (status ∷ statuses)))
      | inr running ↦ rw running (update_self s.parents.photos photo_id PhotoStatus.processing)
    ]

abbrev IsSettled : ℕ → Db → Type 0
IsSettled photo_id db = db.parents.photos photo_id ≡ settled (statuses_of photo_id db.jobs)

-- A session that is flushed: the statuses that are read are those that are committed.
mark_flushed-IsSettled :
    (photo_id job_id : ℕ) (s : Session) {job : Job}
    → s.autoflush ≡ false
    → find_job photo_job job_id (map live_of (map flush_row s.rows)) ≡ some job
    → is_of_photo photo_id job ≡ true
    → IsSettled photo_id (commit (mark_photo_ready_if_jobs_done photo_id (flush s))).durable
unfolding mark_photo_ready_if_jobs_done select_statuses
mark_flushed-IsSettled photo_id job_id s unflushed found own =
    let committed = statuses_of photo_id (map live_of (map flush_row s.rows)) in
    let read : select_statuses (is_of_photo photo_id) (flush s) ≡ committed =
      ap (statuses_of photo_id) (stored-flush s.rows) in
    let filled =
      find-filled (is_of_photo photo_id) photo_job job_id (map live_of (map flush_row s.rows)) found
        own in
    rw (ap (statuses_of photo_id) (live-mark_photo photo_id (flush s))) rw unflushed rw read
      (settle_photo-settled photo_id committed (record (flush s) { autoflush = false }) filled)

module _ {E : Type 0} (outside : CompletionOutside E) (job_id : ℕ) (db : Db) (tables : Tables E)
    (job : Job) (found : find_job photo_job job_id db.jobs ≡ some job) where
  finish_photo-IsSettled :
      IsSettled job.parent_id
        (finish_photo outside job (open_session session_local_autoflush db)).durable
  unfolding finish_photo cleared completed_job
  finish_photo-IsSettled =
      let s = open_session session_local_autoflush db in
      let results_flushed = flush (save (cleared job) s) in
      let completed = save (completed_job outside.finished_now (cleared job)) results_flushed in
      let leaves : find_job photo_job job_id
            (map live_of (mark_photo_ready_if_jobs_done job.parent_id (flush completed)).rows)
          ≡ some (last outside photo_job job_id job) =
        finish_photo-Leaves outside photo_job job_id job s
          (ap (find_job photo_job job_id) (live-loaded db.jobs) ∙ found) in
      let kept =
        sym (ap (find_job photo_job job_id) (live-mark_photo job.parent_id (flush completed)))
        ∙ leaves in
      mark_flushed-IsSettled job.parent_id job_id completed refl kept
        (of_its_photo job_id job (find_job-key photo_job job_id db.jobs found))

  complete_by_type-IsSettled :
      (payload : CompletePhotoJobRequest E) (after : Work E) (current : Current)
      → complete_by_type outside payload job job.job_type (opened outside job_id db tables job)
        ≡ ok (after, current)
      → IsSettled job.parent_id after.session.durable
  unfolding complete_by_type complete_photo_ocr_job complete_photo_face_job
  complete_by_type-IsSettled payload after current h = go job.job_type h
    where
      done :
          (work : Work E)
          → IsSettled job.parent_id work.session.durable
          → completed_with work ≡ ok (after, current)
          → IsSettled job.parent_id after.session.durable
      done work is e =
          subst (λ (r : Work E × Current). IsSettled job.parent_id r.0.session.durable)
            (ok-injective e) is

      go :
          (t : JobType)
          → complete_by_type outside payload job t (opened outside job_id db tables job)
            ≡ ok (after, current)
          → IsSettled job.parent_id after.session.durable
      go JobType.ocr e = elim (Bool-cases (not (is_empty payload.face_detections))) [
        | inl some_faces ↦ let refused = rw (some_faces, complete_by_type) at e in cc
        | inr no_faces ↦
            done
              (complete_photo_ocr_job outside job payload.detections
                (opened outside job_id db tables job))
              finish_photo-IsSettled (rw (no_faces, complete_by_type) at e)
      ]
      go JobType.face_photo_scan e = elim (Bool-cases (not (is_empty payload.detections))) [
        | inl some_texts ↦ let refused = rw (some_texts, complete_by_type) at e in cc
        | inr no_texts ↦
            done
              (complete_photo_face_job outside job payload.face_detections
                (opened outside job_id db tables job))
              finish_photo-IsSettled (rw (no_texts, complete_by_type) at e)
      ]
      go JobType.face_selfie_enroll e = cc
      go JobType.face_search_probe e = cc

  -- When a photo's job completes, the photo is ready, partially ready or failed as the committed statuses of all of
  -- its jobs say if they have all ended, and processing else.
  pub complete_photo_job-IsSettled :
      (payload : CompletePhotoJobRequest E) {answer : Current}
      → job.status ≡ JobStatus.processing
      → let done =
          complete_request session_local_autoflush
            (complete_photo_job outside job_id payload)
            (db, tables) in
        done.1 ≡ ok answer
        → done.0.0.parents.photos job.parent_id ≡ settled (statuses_of job.parent_id done.0.0.jobs)
  unfolding complete_photo_job
  complete_photo_job-IsSettled payload running h =
      committed_by outside job_id db tables job (IsSettled job.parent_id)
        (complete_photo_job outside job_id payload)
        (λ after current e. complete_by_type-IsSettled payload after current (
          completed_here outside job_id db tables job photo_job payload.attempt_id
            (λ j. complete_by_type outside payload j j.job_type) after current found running e))
        h
