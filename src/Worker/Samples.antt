-- ===== src/Worker/Samples.antt =====
-- Rows and reports for the tests of completed jobs. An embedding is a number, and two are as similar as they are
-- near.
use race_frame.Prelude.{ℕ, ◌+◌, ◌-◌, false, [], ◌∷◌, none, some, codes}
use race_frame.Recognition.Tables.{Tables}
use race_frame.Worker.Job.{
  Job, JobStatus, JobType, Db, PhotoStatus, ImageStatus, SessionStatus, photo_job, face_search_job,
}
use race_frame.Worker.Complete.{CompletionOutside}
use race_frame.Worker.CompletePhoto.{CompletePhotoJobRequest}

abbrev pub near : ℕ → ℕ → ℕ
near a b = 100 - ((a - b) + (b - a))

abbrev pub outside : CompletionOutside ℕ
outside = record {
  verify_now = 2000;
  finished_now = 2001;
  settled_now = 2002;
  event_of_photo = λ photo_id. 1;
  event_of_job = λ job. 1;
  participant_of_job = λ job. 8;
  participants_of = λ event_id. [];
  session_bib = λ session_id. none;
  new_face_id = λ index. 50 + index;
  wide = λ c. [];
  wide_space = λ c. false;
  four_digits = λ score. [];
  similarity = near;
  normalize = some;
  face_match_similarity_threshold = 90;
  search_settings = record {
    face_candidate_similarity_threshold = 80;
    max_search_results = 10;
    max_search_faces_per_event = 10;
  };
  thresholds = record {
    face_candidate_similarity_threshold = 80;
    face_medium_similarity_threshold = 85;
    face_strong_similarity_threshold = 95;
    face_reinforcement_similarity_threshold = 90;
  };
  face_reinforcement_max_embeddings = 2;
}

abbrev pub ocr_job : Job
ocr_job = record {
  id = 7;
  model = photo_job;
  job_type = JobType.ocr;
  parent_id = 1;
  search_session_id = 0;
  status = JobStatus.processing;
  attempt_count = 1;
  max_attempts = 2;
  attempt_id = some 100;
  claimed_at = some 1000;
  lease_expires_at = some 300_001_000;
  retry_after = none;
  dead_lettered_at = none;
  error_message = none;
  created_at = 5;
  finished_at = none;
}

abbrev pub failed_scan : Job
failed_scan = record ocr_job {
  id = 8;
  job_type = JobType.face_photo_scan;
  status = JobStatus.dead_lettered;
  lease_expires_at = none;
  dead_lettered_at = some 1500;
  finished_at = some 1500;
}

abbrev pub probe_job : Job
probe_job = record ocr_job {
  id = 9;
  model = face_search_job;
  job_type = JobType.face_search_probe;
  parent_id = 3;
  search_session_id = 4;
}

abbrev pub db : Db
db = record {
  jobs = ocr_job ∷ failed_scan ∷ probe_job ∷ [];
  parents = record {
    photos = λ k. PhotoStatus.processing;
    face_images = λ k. record { status = ImageStatus.queued; error_message = none };
    search_images = λ k. record { status = ImageStatus.processing; error_message = none };
    search_sessions = λ k. record { status = SessionStatus.processing; finished_at = none };
  };
}

abbrev pub tables : Tables ℕ
tables = record {
  text_rows = [];
  face_rows = [];
  embedding_rows = [];
  face_matches = [];
  photo_matches = [];
  search_results = λ k. [];
}

abbrev pub seven : CompletePhotoJobRequest ℕ
seven = record {
  attempt_id = 100;
  detections =
      record {
        payload_detected_text = codes "7";
        payload_normalized_text = codes "7";
        payload_confidence = some 99;
      }
      ∷ [];
  face_detections = [];
}
