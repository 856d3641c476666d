-- ===== src/Worker/Job.antt =====
-- backend/app/models.py: the rows that the worker control plane reads and writes, and the
-- constants of backend/app/worker_api.py. Identifiers are numbers, moments are microseconds, and
-- a text is the list of its code points.
use race_frame.Prelude.{ℕ, ◌*◌, min, max, Bool, true, false, List, Option, ◌&&◌, ◌==◌}

pub data JobStatus : Type 0 where
  queued processing completed failed dead_lettered : JobStatus

-- The class of the row, on which `isinstance` branches.
pub data Model : Type 0 where
  photo_job participant_face_job face_search_job : Model

pub data JobType : Type 0 where
  ocr face_photo_scan face_selfie_enroll face_search_probe : JobType

-- `parent_id` is the photo, the participant's face image or the search image of the job.
pub record Job : Type 0 where
  pub id : ℕ
  pub model : Model
  pub job_type : JobType
  pub parent_id : ℕ
  pub search_session_id : ℕ
  pub status : JobStatus
  pub attempt_count : ℕ
  pub max_attempts : ℕ
  pub attempt_id : Option ℕ
  pub claimed_at : Option ℕ
  pub lease_expires_at : Option ℕ
  pub retry_after : Option ℕ
  pub dead_lettered_at : Option ℕ
  pub error_message : Option (List ℕ)
  pub created_at : ℕ
  pub finished_at : Option ℕ

pub data PhotoStatus : Type 0 where
  uploaded processing ready partially_ready failed : PhotoStatus

pub data ImageStatus : Type 0 where
  queued processing ready failed : ImageStatus

-- A participant's face image, or a temporary search image.
pub record Image : Type 0 where
  pub status : ImageStatus
  pub error_message : Option (List ℕ)

pub data SessionStatus : Type 0 where
  queued processing completed failed : SessionStatus

pub record SearchSession : Type 0 where
  pub status : SessionStatus
  pub finished_at : Option ℕ

-- The tables of parents. A foreign key always finds its row, so these are functions of the key.
pub record Parents : Type 0 where
  pub photos : ℕ → PhotoStatus
  pub face_images : ℕ → Image
  pub search_images : ℕ → Image
  pub search_sessions : ℕ → SearchSession

-- The three job tables are one list, in which each row has its model.
pub record Db : Type 0 where
  pub jobs : List Job
  pub parents : Parents

-- One row of a table of parents is written.
abbrev pub update {ℓ} : {A : Type ℓ} → (ℕ → A) → ℕ → A → ℕ → A
update f k a n = elim (n == k) [ true ↦ a | false ↦ f n ]

abbrev pub same_model : Model → Model → Bool
same_model photo_job photo_job = true
same_model participant_face_job participant_face_job = true
same_model face_search_job face_search_job = true
same_model _ _ = false

-- Two values stand for one row.
abbrev pub same_row : Job → Job → Bool
same_row a b = a.id == b.id && same_model a.model b.model

abbrev pub is_queued : JobStatus → Bool
is_queued queued = true
is_queued _ = false

abbrev pub is_processing : JobStatus → Bool
is_processing processing = true
is_processing _ = false

abbrev pub is_completed : JobStatus → Bool
is_completed completed = true
is_completed _ = false

-- `status in TERMINAL_JOB_STATUSES`
abbrev pub is_terminal : JobStatus → Bool
is_terminal completed = true
is_terminal failed = true
is_terminal dead_lettered = true
is_terminal _ = false

-- The numbers of config.py that the control plane reads. A negative number in the environment
-- is clamped as 0 is.
pub record Settings : Type 0 where
  pub worker_lease_seconds : ℕ
  pub worker_retry_base_seconds : ℕ
  pub worker_retry_max_seconds : ℕ

abbrev pub seconds : ℕ → ℕ
seconds n = n * 1_000_000

unfoldable pub worker_lease_seconds : Settings → ℕ
worker_lease_seconds s = max 30 (min s.worker_lease_seconds 3_600)

unfoldable pub worker_retry_base_seconds : Settings → ℕ
worker_retry_base_seconds s = max 1 (min s.worker_retry_base_seconds 3_600)

unfoldable pub worker_retry_max_seconds : Settings → ℕ
worker_retry_max_seconds s =
    max (worker_retry_base_seconds s) (min s.worker_retry_max_seconds 86_400)
