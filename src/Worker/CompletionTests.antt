-- ===== src/Worker/CompletionTests.antt =====
-- Completed jobs at the rows of Worker/Samples.antt.
use race_frame.Prelude.{ℕ, ◌≡◌, refl, [], ◌∷◌, some, keep, take, codes}
use race_frame.Http.{Result, ok}
use race_frame.Recognition.Tables.{Tables}
use race_frame.Worker.Job.{JobStatus, Db, PhotoStatus, SessionStatus}
use race_frame.Worker.Session.{session_local_autoflush, select_jobs, select_statuses, assign_rows}
use race_frame.Worker.Attempt.{Current, state, verify_active_attempt}
use race_frame.Worker.Parents.{photo_outcome, session_outcome}
use race_frame.Worker.Report.{find_job, load_job}
use race_frame.Worker.CompletePhoto.{complete_photo_job}
use race_frame.Worker.CompleteRequest.{photo, complete_handler, complete_request}
use race_frame.Worker.CompleteFaces.{complete_worker_face_search_job}
use race_frame.Worker.Completion.{complete_handler-idempotent}
use race_frame.Worker.Settled.{complete_worker_face_search_job-unfinished}
use race_frame.Worker.PhotoOutcome.{settled, statuses_of, complete_photo_job-IsSettled}
use race_frame.Worker.Samples.{outside, ocr_job, probe_job, db, tables, seven}

-- What the first report leaves.
abbrev after_photo : (Db × Tables ℕ) × Result Current
after_photo =
    complete_request session_local_autoflush (complete_photo_job outside 7 seven) (db, tables)

abbrev after_search : (Db × Tables ℕ) × Result Current
after_search =
    complete_request session_local_autoflush (complete_worker_face_search_job outside 9 100 50)
      (db, tables)

program : Unit {0}
unfolding complete_handler find_job load_job verify_active_attempt select_jobs select_statuses
    assign_rows photo_outcome session_outcome keep take
program = tt

text_stored :
    after_photo.0.1.text_rows
    ≡ record {
      text_photo_id = 1;
      text_job_id = 7;
      detected_text = codes "7";
      normalized_text = codes "7";
      confidence = some 99;
    }
      ∷ []
unfolding program
text_stored = refl

photo_is_partial : after_photo.0.0.parents.photos 1 ≡ PhotoStatus.partially_ready
unfolding program
photo_is_partial = refl

complete_handler-idempotent_example :
    complete_request session_local_autoflush
      (complete_handler outside (photo seven) 7)
      after_photo.0
    ≡ (after_photo.0, ok (state JobStatus.completed))
unfolding program
complete_handler-idempotent_example =
    complete_handler-idempotent outside outside 7 session_local_autoflush db tables (photo seven)
      refl

complete_photo_job-IsSettled_example :
    after_photo.0.0.parents.photos 1 ≡ settled (statuses_of 1 after_photo.0.0.jobs)
unfolding program
complete_photo_job-IsSettled_example =
    complete_photo_job-IsSettled outside 7 db tables ocr_job refl seven refl refl

complete_worker_face_search_job-unfinished_example :
    (after_search.0.0.parents.search_sessions 4).status ≡ SessionStatus.processing
unfolding program
complete_worker_face_search_job-unfinished_example =
    complete_worker_face_search_job-unfinished outside 9 db tables probe_job 100 50 refl refl refl
