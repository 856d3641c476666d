-- ===== src/Worker/CompletePhoto.antt =====
-- backend/app/worker_api.py: `complete_photo_job`; backend/app/face.py: `complete_photo_ocr_job` and
-- `complete_photo_face_job`.
use race_frame.Prelude.{
  ℕ, ◌+◌, not, ◌||◌, List, [], ◌∷◌, ◌++◌, Option, none, some, ◌==◌, if◌then◌else◌, map, keep,
  is_empty,
}
use race_frame.Http.{Result, ok, http}
use race_frame.Matching.Token.{Text}
use race_frame.Search.Merge.{strip_start, strip_end}
use race_frame.Search.Ocr.{TextDetection, create_ocr_participant_matches}
use race_frame.Recognition.Tables.{TextRow, FaceRow, Tables}
use race_frame.Worker.Job.{Job, JobStatus, JobType, Model}
use race_frame.Worker.Session.{Session, flush, commit, save}
use race_frame.Worker.Attempt.{Current, state}
use race_frame.Worker.Parents.{mark_photo_ready_if_jobs_done}
use race_frame.Worker.Complete.{Work, CompletionOutside, cleared, completed_job, complete_with}

pub record OcrDetectionPayload : Type 0 where
  pub payload_detected_text : Text
  pub payload_normalized_text : Text
  pub payload_confidence : Option ℕ

pub record FaceDetectionPayload (E : Type 0) : Type 0 where
  pub payload_face_index : ℕ
  pub payload_embedding : E

pub record CompletePhotoJobRequest (E : Type 0) : Type 0 where
  pub attempt_id : ℕ
  pub detections : List OcrDetectionPayload
  pub face_detections : List (FaceDetectionPayload E)

module _ {E : Type 0} (outside : CompletionOutside E) where
  open outside use {
    finished_now, settled_now, event_of_photo, event_of_job, participant_of_job, participants_of,
    session_bib, new_face_id, wide, wide_space, four_digits, similarity, normalize,
    face_match_similarity_threshold, search_settings,
  }

  abbrev pub strip : Text → Text
  strip s = strip_end wide_space (strip_start wide_space s)

  -- The detections that are stored: both texts are left when they are stripped.
  unfoldable pub stored_detections : ℕ → ℕ → List OcrDetectionPayload → List TextRow
  unfolding strip_start strip_end
  stored_detections photo_id job_id [] = []
  stored_detections photo_id job_id (d ∷ detections) =
      let rest = stored_detections photo_id job_id detections in
      let row : TextRow = record {
        text_photo_id = photo_id;
        text_job_id = job_id;
        detected_text = strip d.payload_detected_text;
        normalized_text = strip d.payload_normalized_text;
        confidence = d.payload_confidence;
      } in
      if is_empty (strip d.payload_detected_text) || is_empty (strip d.payload_normalized_text)
      then rest
      else row ∷ rest

  abbrev pub with_face :
      ℕ → Job → FaceDetectionPayload E → Option E → List (FaceRow E) → List (FaceRow E)
  with_face index job d none rows = rows
  with_face index job d (some embedding) rows =
      record {
        face_id = new_face_id index;
        face_event_id = event_of_photo job.parent_id;
        face_photo_id = job.parent_id;
        face_job_id = job.id;
        face_index = d.payload_face_index;
        face_embedding = embedding;
      }
      ∷ rows

  unfoldable pub stored_faces : ℕ → Job → List (FaceDetectionPayload E) → List (FaceRow E)
  stored_faces index job [] = []
  stored_faces index job (d ∷ detections) =
      with_face index job d (normalize d.payload_embedding)
        (stored_faces (index + 1) job detections)

  abbrev pub as_text : TextRow → TextDetection
  as_text row = record { detected_text = row.detected_text; confidence = row.confidence }

  abbrev pub put_texts : Job → List TextRow → Tables E → Tables E
  put_texts job stored tables = record tables {
    text_rows = keep (λ row. not (row.text_job_id == job.id)) tables.text_rows ++ stored;
  }

  abbrev pub put_faces : Job → List (FaceRow E) → Tables E → Tables E
  put_faces job stored tables = record tables {
    face_rows = keep (λ row. not (row.face_job_id == job.id)) tables.face_rows ++ stored;
  }

  abbrev pub match_texts : Job → List TextRow → Tables E → Tables E
  match_texts job stored tables =
      let event_id = event_of_photo job.parent_id in
      record tables {
        photo_matches =
            create_ocr_participant_matches wide wide_space event_id job.parent_id
              (participants_of event_id) (map as_text stored) tables.photo_matches;
      }

  -- The two flushes of a photo's job: the rows of the results, and then the completed job, before the photo's
  -- statuses are read.
  unfoldable pub finish_photo : Job → Session → Session
  unfolding cleared completed_job mark_photo_ready_if_jobs_done
  finish_photo job s =
      let results_flushed = flush (save (cleared job) s) in
      commit (
        mark_photo_ready_if_jobs_done job.parent_id
          (flush (save (completed_job finished_now (cleared job)) results_flushed)))

  unfoldable pub complete_photo_ocr_job : Job → List OcrDetectionPayload → Work E → Work E
  unfolding stored_detections create_ocr_participant_matches keep finish_photo
  complete_photo_ocr_job job detections work =
      let stored = stored_detections job.parent_id job.id detections in
      record {
        session = finish_photo job work.session;
        tables = match_texts job stored (put_texts job stored work.tables);
      }

  unfoldable pub complete_photo_face_job : Job → List (FaceDetectionPayload E) → Work E → Work E
  unfolding stored_faces keep finish_photo
  complete_photo_face_job job detections work = record {
    session = finish_photo job work.session;
    tables = put_faces job (stored_faces 0 job detections) work.tables;
  }

  unfoldable pub complete_by_type :
      CompletePhotoJobRequest E → Job → JobType → Work E → Result (Work E × Current)
  unfolding complete_photo_ocr_job complete_photo_face_job
  complete_by_type payload job JobType.ocr work =
      if not (is_empty payload.face_detections)
      then http 422 "OCR jobs cannot return face detections."
      else ok (complete_photo_ocr_job job payload.detections work, state JobStatus.completed)
  complete_by_type payload job JobType.face_photo_scan work =
      if not (is_empty payload.detections)
      then http 422 "Face scan jobs cannot return OCR detections."
      else ok (complete_photo_face_job job payload.face_detections work, state JobStatus.completed)
  complete_by_type payload job JobType.face_selfie_enroll work =
      http 400 "Unsupported photo job type."
  complete_by_type payload job JobType.face_search_probe work =
      http 400 "Unsupported photo job type."

  unfoldable pub complete_photo_job :
      ℕ → CompletePhotoJobRequest E → Work E → Result (Work E × Current)
  unfolding complete_with complete_by_type
  complete_photo_job job_id payload work =
      complete_with outside Model.photo_job job_id payload.attempt_id
        (λ job. complete_by_type payload job job.job_type) work
