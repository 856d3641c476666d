-- ===== src/Worker/Parents.antt =====
-- backend/app/worker_api.py and backend/app/face.py: the state of a job's photo, image and search
-- session as its jobs start and end.
use race_frame.Prelude.{
  ℕ, Bool, not, ◌&&◌, List, none, some, ◌==◌, all, any, is_empty, take, or_text, if◌then◌else◌,
}
use race_frame.Worker.Job.{
  Job, JobStatus, Model, photo_job, participant_face_job, face_search_job, Image, ImageStatus,
  PhotoStatus, SearchSession, SessionStatus, update, same_model, is_completed, is_terminal,
}
use race_frame.Worker.Session.{Session, before_query, select_statuses}

abbrev pub set_photo : ℕ → PhotoStatus → Session → Session
set_photo k status s =
    let p = s.parents in record s { parents = record p { photos = update p.photos k status } }

abbrev pub set_face_image : ℕ → Image → Session → Session
set_face_image k image s =
    let p = s.parents in
    record s { parents = record p { face_images = update p.face_images k image } }

abbrev pub set_search_image : ℕ → Image → Session → Session
set_search_image k image s =
    let p = s.parents in
    record s { parents = record p { search_images = update p.search_images k image } }

abbrev pub set_search_session : ℕ → SearchSession → Session → Session
set_search_session k row s =
    let p = s.parents in
    record s { parents = record p { search_sessions = update p.search_sessions k row } }

-- `search_session.status = "processing"`
abbrev pub run_search_session : ℕ → Session → Session
run_search_session k s =
    let p = s.parents in
    let row = p.search_sessions k in
    set_search_session k (record row { status = SessionStatus.processing }) s

-- `PhotoJob.photo_id == photo.id`
abbrev pub is_of_photo : ℕ → Job → Bool
is_of_photo photo_id row = same_model row.model photo_job && row.parent_id == photo_id

-- `FaceSearchJob.search_session_id == search_session.id`
abbrev pub is_of_session : ℕ → Job → Bool
is_of_session session_id row =
    same_model row.model face_search_job && row.search_session_id == session_id

-- `statuses and all(item in TERMINAL_JOB_STATUSES for item in statuses)`
abbrev pub all_done : List JobStatus → Bool
all_done statuses = not (is_empty statuses) && all is_terminal statuses

-- The photo's status once all of its jobs have ended.
unfoldable pub photo_outcome : List JobStatus → PhotoStatus
photo_outcome statuses =
    if all is_completed statuses
    then PhotoStatus.ready
    else if any is_completed statuses
    then PhotoStatus.partially_ready
    else PhotoStatus.failed

-- The search session's status once all of its jobs have ended.
unfoldable pub session_outcome : List JobStatus → SessionStatus
session_outcome statuses =
    if any is_completed statuses then SessionStatus.completed else SessionStatus.failed

sync_photo : Job → List JobStatus → Session → Session
sync_photo job statuses s =
    if all_done statuses then set_photo job.parent_id (photo_outcome statuses) s else s

sync_session : ℕ → Job → List JobStatus → Session → Session
sync_session now job statuses s =
    if all_done statuses
    then set_search_session job.search_session_id
        (record { status = session_outcome statuses; finished_at = some now }) s
    else s

abbrev failed_image : Job → List ℕ → Image
failed_image job fallback = record {
  status = ImageStatus.failed;
  error_message = some (take 2_000 (or_text job.error_message fallback));
}

-- "Face processing failed." and "Face search failed.", which stand in for a missing message.
pub record Fallbacks : Type 0 where
  pub face_processing_failed : List ℕ
  pub face_search_failed : List ℕ

-- `_sync_terminal_parent_state`; `isinstance` is the match on the model.
sync_by_model : Fallbacks → ℕ → Model → Job → Session → Session
sync_by_model texts now photo_job job s =
    let s' = before_query s in sync_photo job (select_statuses (is_of_photo job.parent_id) s') s'
sync_by_model texts now participant_face_job job s =
    set_face_image job.parent_id (failed_image job texts.face_processing_failed) s
sync_by_model texts now face_search_job job s =
    let s' =
      before_query (set_search_image job.parent_id (failed_image job texts.face_search_failed) s) in
    sync_session now job (select_statuses (is_of_session job.search_session_id) s') s'

unfoldable pub sync_terminal_parent_state : Fallbacks → ℕ → Job → Session → Session
unfolding sync_by_model sync_photo sync_session
sync_terminal_parent_state texts now job s = sync_by_model texts now job.model job s

processing_image : Image
processing_image = record { status = ImageStatus.processing; error_message = none }

-- `_mark_parent_processing`
mark_by_model : Model → Job → Session → Session
mark_by_model photo_job job s = set_photo job.parent_id PhotoStatus.processing s
mark_by_model participant_face_job job s = set_face_image job.parent_id processing_image s
mark_by_model face_search_job job s =
    run_search_session job.search_session_id (set_search_image job.parent_id processing_image s)

unfoldable pub mark_parent_processing : Job → Session → Session
unfolding mark_by_model processing_image
mark_parent_processing job s = mark_by_model job.model job s

-- face.py, `mark_photo_ready_if_jobs_done`
unfoldable pub settle_photo : ℕ → List JobStatus → Session → Session
settle_photo photo_id statuses s =
    if all_done statuses
    then set_photo photo_id (photo_outcome statuses) s
    else if is_empty statuses
    then s
    else set_photo photo_id PhotoStatus.processing s

unfoldable pub mark_photo_ready_if_jobs_done : ℕ → Session → Session
unfolding settle_photo
mark_photo_ready_if_jobs_done photo_id s =
    let s' = before_query s in settle_photo photo_id (select_statuses (is_of_photo photo_id) s') s'

-- face.py, `mark_face_search_session_done_if_jobs_done`
unfoldable pub settle_session : ℕ → ℕ → List JobStatus → Session → Session
settle_session now session_id statuses s =
    if all_done statuses
    then set_search_session session_id
        (record { status = session_outcome statuses; finished_at = some now }) s
    else if is_empty statuses
    then s
    else run_search_session session_id s

unfoldable pub mark_face_search_session_done_if_jobs_done : ℕ → ℕ → Session → Session
unfolding settle_session
mark_face_search_session_done_if_jobs_done now session_id s =
    let s' = before_query s in
    settle_session now session_id (select_statuses (is_of_session session_id) s') s'
