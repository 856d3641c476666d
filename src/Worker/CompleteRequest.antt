-- ===== src/Worker/CompleteRequest.antt =====
-- backend/app/worker_api.py: the routes that end in `/complete`, in the transaction of `get_db`.
use race_frame.Prelude.{ℕ, Bool}
use race_frame.Http.{Result, ok}
use race_frame.Recognition.Tables.{Tables}
use race_frame.Worker.Job.{Db}
use race_frame.Worker.Session.{open_session}
use race_frame.Worker.Attempt.{Current}
use race_frame.Worker.Complete.{Work, CompletionOutside}
use race_frame.Worker.CompletePhoto.{CompletePhotoJobRequest, complete_photo_job}
use race_frame.Worker.CompleteFaces.{
  complete_worker_participant_face_job, complete_worker_face_search_job,
}

-- The reports of the three routes that end in `/complete`.
pub data CompletionReport (E : Type 0) : Type 0 where
  photo : CompletePhotoJobRequest E → CompletionReport E
  enrolment : ℕ → E → CompletionReport E
  search_probe : ℕ → E → CompletionReport E

unfoldable pub complete_handler :
    {E : Type 0} → CompletionOutside E → CompletionReport E → ℕ → Work E → Result (Work E × Current)
unfolding complete_photo_job complete_worker_participant_face_job complete_worker_face_search_job
complete_handler outside (photo payload) job_id work =
    complete_photo_job outside job_id payload work
complete_handler outside (enrolment attempt_id embedding) job_id work =
    complete_worker_participant_face_job outside job_id attempt_id embedding work
complete_handler outside (search_probe attempt_id embedding) job_id work =
    complete_worker_face_search_job outside job_id attempt_id embedding work

-- A handler that raises leaves the rows and the tables unwritten.
abbrev pub respond_work :
    {E : Type 0} → Db × Tables E → Result (Work E × Current) → (Db × Tables E) × Result Current
respond_work before (Result.ok (work, current)) = ((work.session.durable, work.tables), ok current)
respond_work before (Result.raise failure) = (before, Result.raise failure)

abbrev pub complete_request :
    {E : Type 0}
    → Bool
    → (Work E → Result (Work E × Current))
    → Db × Tables E
    → (Db × Tables E) × Result Current
complete_request autoflush handler (db, tables) =
    respond_work (db, tables)
      (handler (record { session = open_session autoflush db; tables = tables }))
