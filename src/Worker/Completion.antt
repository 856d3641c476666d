-- ===== src/Worker/Completion.antt =====
-- backend/app/worker_api.py: a completion that a worker repeats.
use race_frame.Prelude.{ℕ, ◌≡◌, refl, sym, ap, ◌∙◌, Bool, true, map, some, arith}
use race_frame.Http.{Result, ok, raise, >>=-eq-ok, ok-injective}
use race_frame.Recognition.Tables.{Tables}
use race_frame.Worker.Job.{Job, JobStatus, Model, Db}
use race_frame.Worker.Session.{Session, live_of, open_session}
use race_frame.Worker.Attempt.{Current, processing, state, retry_scheduled, verify_active_attempt}
use race_frame.Worker.Ownership.{verify_active_attempt_iff}
use race_frame.Worker.Reading.{live-loaded}
use race_frame.Worker.Requests.{load_job-eq-ok}
use race_frame.Worker.Report.{find_job, load_job}
use race_frame.Worker.Complete.{
  Work, CompletionOutside, cleared, completed_job, complete_with, complete_current,
}
use race_frame.Worker.CompletePhoto.{complete_by_type, complete_photo_job}
use race_frame.Worker.CompleteFaces.{
  enroll_if, complete_worker_participant_face_job, search_if, complete_worker_face_search_job,
}
use race_frame.Worker.CompleteRequest.{
  CompletionReport, photo, enrolment, search_probe, complete_handler, respond_work,
  complete_request,
}
use race_frame.Worker.Leaves.{IsCompleted}
use race_frame.Worker.Completes.{
  Completes, answer_is, complete_by_type-Completes, enroll_if-Completes, search_if-Completes,
}

module _ {E : Type 0} (outside : CompletionOutside E) where
  verified-state :
      (job : Job) (attempt_id now : ℕ) (status : JobStatus)
      → verify_active_attempt job attempt_id true now ≡ ok (state status)
      → (job.status ≡ status) × (job.attempt_id ≡ some attempt_id)
  unfolding verify_active_attempt
  verified-state job attempt_id now status h = (ground arith, ground arith)

  verified-completed :
      (job : Job) (attempt_id now : ℕ)
      → job.status ≡ JobStatus.completed
      → job.attempt_id ≡ some attempt_id
      → verify_active_attempt job attempt_id true now ≡ ok (state JobStatus.completed)
  unfolding verify_active_attempt
  verified-completed job attempt_id now s a = ground arith

  module _ (model : Model) (job_id attempt_id : ℕ)
      (complete : Job → Work E → Result (Work E × Current))
      (completes : Completes outside model job_id complete) where
    current-IsCompleted :
        (job : Job) (autoflush : Bool) (db : Db) (tables : Tables E) (current : Current)
        (after : Work E) (answer : Current)
        → let work : Work E = record { session = open_session autoflush db; tables = tables } in
          find_job model job_id db.jobs ≡ some job
          → verify_active_attempt job attempt_id true outside.verify_now ≡ ok current
          → complete_current outside work current (complete job work) ≡ ok (after, answer)
          → (answer ≡ state JobStatus.completed)
            × IsCompleted model job_id attempt_id after.session.durable
    unfolding cleared completed_job
    current-IsCompleted job autoflush db tables processing after answer found verified h =
        let work : Work E = record { session = open_session autoflush db; tables = tables } in
        let (is, kept) = completes job work after answer (rw (live-loaded db.jobs) found) h in
        let owner = (verify_active_attempt_iff job attempt_id outside.verify_now true).0 verified in
        (
          is,
          record {
            job = completed_job outside.finished_now (cleared job);
            found = kept;
            status = refl;
            attempt = owner.attempt;
          },
        )
    current-IsCompleted job autoflush db tables (state JobStatus.completed) after answer found
          verified h =
        let (status_is, attempt_is) =
          verified-state job attempt_id outside.verify_now JobStatus.completed verified in
        answer_is (λ s. IsCompleted model job_id attempt_id s.durable)
          (record { session = open_session autoflush db; tables = tables }) after answer
          (record { job = job; found = found; status = status_is; attempt = attempt_is }) h
    current-IsCompleted job autoflush db tables (state JobStatus.queued) after answer found verified
          h =
        cc
    current-IsCompleted job autoflush db tables (state JobStatus.processing) after answer found
          verified h =
        cc
    current-IsCompleted job autoflush db tables (state JobStatus.failed) after answer found verified
          h =
        cc
    current-IsCompleted job autoflush db tables (state JobStatus.dead_lettered) after answer found
          verified h =
        cc
    current-IsCompleted job autoflush db tables retry_scheduled after answer found verified h = cc

    handler-IsCompleted :
        (autoflush : Bool) (db : Db) (tables : Tables E) (after : Work E) (answer : Current)
        → complete_with outside model job_id attempt_id complete
            (record { session = open_session autoflush db; tables = tables })
          ≡ ok (after, answer)
        → (answer ≡ state JobStatus.completed)
          × IsCompleted model job_id attempt_id after.session.durable
    unfolding complete_with
    handler-IsCompleted autoflush db tables after answer h =
        let session = open_session autoflush db in
        let (job, is_loaded, h1) = >>=-eq-ok (load_job model job_id session) _ h in
        let (current, verified, h2) =
          >>=-eq-ok (verify_active_attempt job attempt_id true outside.verify_now) _ h1 in
        current-IsCompleted job autoflush db tables current after answer
          (rw (live-loaded db.jobs) at (load_job-eq-ok model job_id session is_loaded)) verified h2

  find-load_job :
      (model : Model) (job_id : ℕ) (s : Session) {job : Job}
      → find_job model job_id (map live_of s.rows) ≡ some job
      → load_job model job_id s ≡ ok job
  unfolding load_job
  find-load_job model job_id s h = rw (h, load_job) refl

  -- A completed job answers again and nothing is written, whatever the report says.
  completed-again :
      (model : Model) (job_id attempt_id : ℕ) (complete : Job → Work E → Result (Work E × Current))
      (autoflush : Bool) (db : Db) (tables : Tables E)
      → IsCompleted model job_id attempt_id db
      → complete_request autoflush
          (complete_with outside model job_id attempt_id complete)
          (db, tables)
        ≡ ((db, tables), ok (state JobStatus.completed))
  unfolding complete_with
  completed-again model job_id attempt_id complete autoflush db tables c =
      let session = open_session autoflush db in
      let is_loaded =
        find-load_job model job_id session
          (ap (find_job model job_id) (live-loaded db.jobs) ∙ c.found) in
      rw is_loaded rw (verified-completed c.job attempt_id outside.verify_now c.status c.attempt)
        refl

-- The reply of a request, and what it has committed.
first-IsCompleted :
    {E : Type 0} (outside : CompletionOutside E) (model : Model) (job_id attempt_id : ℕ)
    (complete : Job → Work E → Result (Work E × Current))
    → Completes outside model job_id complete
    → (autoflush : Bool) (db : Db) (tables : Tables E) {answer : Current}
    → (complete_request autoflush
        (complete_with outside model job_id attempt_id complete)
        (db, tables)).1
      ≡ ok answer
    → (answer ≡ state JobStatus.completed)
      × IsCompleted model job_id attempt_id
          (complete_request autoflush
            (complete_with outside model job_id attempt_id complete)
            (db, tables)).0.0
first-IsCompleted {E} outside model job_id attempt_id complete completes autoflush db tables
      {answer} h =
    go
      (complete_with outside model job_id attempt_id complete
        (record { session = open_session autoflush db; tables = tables }))
      refl h
  where
    go :
        (r : Result (Work E × Current))
        → complete_with outside model job_id attempt_id complete
            (record { session = open_session autoflush db; tables = tables })
          ≡ r
        → (respond_work (db, tables) r).1 ≡ ok answer
        → (answer ≡ state JobStatus.completed)
          × IsCompleted model job_id attempt_id (respond_work (db, tables) r).0.0
    go (ok (after, current)) e k =
        let (is, c) =
          handler-IsCompleted outside model job_id attempt_id complete completes autoflush db tables
            after current e in
        (sym (ok-injective k) ∙ is, c)
    go (raise failure) e k = cc

module _ {E : Type 0} (outside later : CompletionOutside E) (job_id : ℕ) (autoflush : Bool)
    (db : Db) (tables : Tables E) where
  repeated :
      (model : Model) (attempt_id : ℕ) (complete again : Job → Work E → Result (Work E × Current))
      {answer : Current}
      → Completes outside model job_id complete
      → let first =
          complete_request autoflush
            (complete_with outside model job_id attempt_id complete)
            (db, tables) in
        first.1 ≡ ok answer
        → complete_request autoflush (complete_with later model job_id attempt_id again) first.0
          ≡ (first.0, ok answer)
  repeated model attempt_id complete again completes h =
      let first =
        complete_request autoflush (complete_with outside model job_id attempt_id complete)
          (db, tables) in
      let (is, c) =
        first-IsCompleted outside model job_id attempt_id complete completes autoflush db tables
          h in
      completed-again later model job_id attempt_id again autoflush first.0.0 first.0.1 c
      ∙ ap (λ (a : Current). (first.0, Result.ok a)) (sym is)

  -- A completion that got a reply and is sent again, at any later time, gets the same reply and writes nothing,
  -- neither to the rows of the jobs nor to the tables of the results.
  pub complete_handler-idempotent :
      (report : CompletionReport E) {answer : Current}
      → let first =
          complete_request autoflush (complete_handler outside report job_id) (db, tables) in
        first.1 ≡ ok answer
        → complete_request autoflush (complete_handler later report job_id) first.0
          ≡ (first.0, ok answer)
  unfolding complete_handler complete_photo_job complete_worker_participant_face_job
      complete_worker_face_search_job
  complete_handler-idempotent (photo payload) h =
      repeated Model.photo_job payload.attempt_id
        (λ job. complete_by_type outside payload job job.job_type)
        (λ job. complete_by_type later payload job job.job_type)
        (complete_by_type-Completes outside payload Model.photo_job job_id) h
  complete_handler-idempotent (enrolment attempt_id embedding) h =
      repeated Model.participant_face_job attempt_id
        (λ job. enroll_if outside job (outside.normalize embedding))
        (λ job. enroll_if later job (later.normalize embedding))
        (enroll_if-Completes outside embedding Model.participant_face_job job_id) h
  complete_handler-idempotent (search_probe attempt_id embedding) h =
      repeated Model.face_search_job attempt_id
        (λ job. search_if outside job (outside.normalize embedding))
        (λ job. search_if later job (later.normalize embedding))
        (search_if-Completes outside embedding Model.face_search_job job_id) h
