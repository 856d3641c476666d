-- ===== src/Worker/Complete.antt =====
-- backend/app/worker_api.py: the three `complete` handlers, with `complete_photo_ocr_job`,
-- `complete_photo_face_job`, `complete_participant_face_job` and `complete_face_search_job` of
-- backend/app/face.py. The diagnostics and the boxes and scores of a report are stored as they come and not
-- read again here, so they are left out.
use Prim.Native.String.{String}
use race_frame.Prelude.{ℕ, Bool, true, false, List, Option, none, some, if◌then◌else◌}
use race_frame.Http.{Result, ok, http, ◌>>=◌}
use race_frame.Matching.Token.{Text}
use race_frame.Matching.Evidence.{Thresholds}
use race_frame.Search.Best.{SearchSettings}
use race_frame.Search.Ocr.{Participant}
use race_frame.Recognition.Tables.{Tables}
use race_frame.Worker.Job.{Job, JobStatus, Model, Image, ImageStatus}
use race_frame.Worker.Session.{Session}
use race_frame.Worker.Attempt.{Current, state, processing, retry_scheduled, verify_active_attempt}
use race_frame.Worker.Report.{load_job}

-- The session, and the tables of results, which its transaction writes too.
pub record Work (E : Type 0) : Type 0 where
  pub session : Session
  pub tables : Tables E

-- What is read from outside: the clock at its places, the columns of other rows, drawn identifiers, and the
-- functions on floats and on Unicode.
pub record CompletionOutside (E : Type 0) : Type 0 where
  pub verify_now : ℕ
  pub finished_now : ℕ
  pub settled_now : ℕ
  pub event_of_photo : ℕ → ℕ
  pub event_of_job : Job → ℕ
  pub participant_of_job : Job → ℕ
  pub participants_of : ℕ → List Participant
  pub session_bib : ℕ → Option Text
  pub new_face_id : ℕ → ℕ
  pub wide : ℕ → Text
  pub wide_space : ℕ → Bool
  pub four_digits : ℕ → Text
  pub similarity : E → E → ℕ
  pub normalize : E → Option E
  pub face_match_similarity_threshold : ℕ
  pub search_settings : SearchSettings
  pub thresholds : Thresholds
  pub face_reinforcement_max_embeddings : ℕ

-- `lease_expires_at` and `retry_after` are cleared before the job is completed.
unfoldable pub cleared : Job → Job
cleared job = record job { lease_expires_at = none; retry_after = none }

unfoldable pub completed_job : ℕ → Job → Job
completed_job now job = record job { status = JobStatus.completed; finished_at = some now }

abbrev pub ready_image : Image
ready_image = record { status = ImageStatus.ready; error_message = none }

abbrev pub refusal_text : Current → String
refusal_text processing = "Job cannot complete from state processing."
refusal_text retry_scheduled = "Job cannot complete from state retry_scheduled."
refusal_text (state JobStatus.queued) = "Job cannot complete from state queued."
refusal_text (state JobStatus.processing) = "Job cannot complete from state processing."
refusal_text (state JobStatus.completed) = "Job cannot complete from state completed."
refusal_text (state JobStatus.failed) = "Job cannot complete from state failed."
refusal_text (state JobStatus.dead_lettered) = "Job cannot complete from state dead_lettered."

abbrev pub server_error {ℓ} : {A : Type ℓ} → Result A
server_error = http 500 "Internal Server Error"

module _ {E : Type 0} (outside : CompletionOutside E) where
  abbrev pub current_is : Current → Bool
  current_is (state JobStatus.completed) = true
  current_is _ = false

  -- An attempt that has completed is answered again; another state than `processing` is refused.
  abbrev pub complete_current :
      Work E → Current → Result (Work E × Current) → Result (Work E × Current)
  complete_current work processing next = next
  complete_current work (state status) next =
      if current_is (state status)
      then ok (work, state status)
      else http 409 (refusal_text (state status))
  complete_current work retry_scheduled next = http 409 (refusal_text retry_scheduled)

  -- What the three handlers share: the row of the path, the check of the attempt, and the completion.
  unfoldable pub complete_with :
      Model
      → ℕ
      → ℕ
      → (Job → Work E → Result (Work E × Current))
      → Work E
      → Result (Work E × Current)
  unfolding load_job verify_active_attempt
  complete_with model job_id attempt_id complete work = do
    job ← load_job model job_id work.session
    current ← verify_active_attempt job attempt_id true outside.verify_now
    complete_current work current (complete job work)
