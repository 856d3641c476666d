-- ===== src/Worker/Leaves.antt =====
-- backend/app/worker_api.py: the committed row of a job after the three completions.
use race_frame.Prelude.{ℕ, ◌≡◌, ap, ◌∙◌, true, ◌&&◌, ◌==◌, map, some, arith}
use race_frame.Recognition.Tables.{Tables}
use race_frame.Worker.Job.{Job, JobStatus, Model, Db, same_model}
use race_frame.Worker.Session.{Session, live_of, flush_row, flush, save, assign_rows}
use race_frame.Worker.Parents.{
  set_search_image, mark_photo_ready_if_jobs_done, mark_face_search_session_done_if_jobs_done,
}
use race_frame.Worker.Reading.{live-flush, find_job-key, find_job-saved}
use race_frame.Worker.Report.{find_job}
use race_frame.Worker.Complete.{CompletionOutside, cleared, completed_job, ready_image}
use race_frame.Worker.CompletePhoto.{finish_photo}
use race_frame.Worker.CompleteFaces.{enroll, finish_search}

-- The committed row is completed under the attempt.
pub record IsCompleted (model : Model) (job_id attempt_id : ℕ) (db : Db) : Type 0 where
  pub job : Job
  pub found : find_job model job_id db.jobs ≡ some job
  pub status : job.status ≡ JobStatus.completed
  pub attempt : job.attempt_id ≡ some attempt_id

pub live-mark_photo :
    (photo_id : ℕ) (s : Session)
    → map live_of (mark_photo_ready_if_jobs_done photo_id s).rows ≡ map live_of s.rows
unfolding mark_photo_ready_if_jobs_done
live-mark_photo photo_id s = ground (arith, live-flush s.rows)

live-mark_session :
    (now session_id : ℕ) (s : Session)
    → map live_of (mark_face_search_session_done_if_jobs_done now session_id s).rows
      ≡ map live_of s.rows
unfolding mark_face_search_session_done_if_jobs_done
live-mark_session now session_id s = ground (arith, live-flush s.rows)

key_kept :
    (now : ℕ) (job : Job) (model : Model) (job_id : ℕ)
    → (job.id == job_id && same_model job.model model) ≡ true
    → ((cleared job).id == job_id && same_model (cleared job).model model ≡ true)
      × ((completed_job now (cleared job)).id == job_id
            && same_model (completed_job now (cleared job)).model model
          ≡ true)
unfolding cleared completed_job
key_kept now job model job_id k = ground arith

module _ {E : Type 0} (outside : CompletionOutside E) (model : Model) (job_id : ℕ) (job : Job) where
  abbrev pub last : Job
  last = completed_job outside.finished_now (cleared job)

  abbrev pub Leaves : Session → Type 0
  Leaves s = find_job model job_id s.durable.jobs ≡ some last

  module _ (s : Session) (found : find_job model job_id (map live_of s.rows) ≡ some job) where
    pub finish_photo-Leaves : Leaves (finish_photo outside job s)
    unfolding finish_photo
    finish_photo-Leaves =
        let (key_cleared, key_last) =
          key_kept outside.finished_now job model job_id
            (find_job-key model job_id (map live_of s.rows) found) in
        let first = assign_rows (λ _. cleared job) (cleared job) s.rows in
        let second = assign_rows (λ _. last) last (map flush_row first) in
        let after_first : find_job model job_id (map live_of (map flush_row first))
            ≡ some (cleared job) =
          ap (find_job model job_id) (live-flush first)
          ∙ find_job-saved model job_id (cleared job) s.rows key_cleared found in
        let results_flushed = flush (save (cleared job) s) in
        ap (find_job model job_id)
          (live-mark_photo job.parent_id (flush (save last results_flushed)) ∙ live-flush second)
        ∙ find_job-saved model job_id last (map flush_row first) key_last after_first

    pub finish_search-Leaves : Leaves (finish_search outside job s)
    unfolding finish_search
    finish_search-Leaves =
        let (_, key_last) =
          key_kept outside.finished_now job model job_id
            (find_job-key model job_id (map live_of s.rows) found) in
        ap (find_job model job_id) (
          live-mark_session outside.settled_now job.search_session_id
            (save last (set_search_image job.parent_id ready_image s)))
        ∙ find_job-saved model job_id last s.rows key_last found

    pub enroll-Leaves :
        (embedding : E) (tables : Tables E)
        → Leaves (enroll outside job embedding (record { session = s; tables = tables })).session
    unfolding enroll
    enroll-Leaves embedding tables =
        let (_, key_last) =
          key_kept outside.finished_now job model job_id
            (find_job-key model job_id (map live_of s.rows) found) in
        ap (find_job model job_id) (live-flush (assign_rows (λ _. last) last s.rows))
        ∙ find_job-saved model job_id last s.rows key_last found
