-- ===== src/Worker/Settled.antt =====
-- backend/app/face.py with the session of backend/app/db.py: what a completion makes of the photo or of the
-- search session of its job. A photo's job is flushed before the statuses are read, a search's job is not.
use race_frame.Prelude.{
  ℕ, ◌≡◌, refl, sym, ap, ◌∙◌, subst, true, false, ◌&&◌, ◌==◌, List, [], ◌∷◌, Option, none, some,
  some-injective, arith, is_empty, all,
}
use race_frame.Http.{Result, ok, raise, >>=-eq-ok, ok-injective}
use race_frame.Recognition.Tables.{Tables}
use race_frame.Search.Best.{SearchResult}
use race_frame.Worker.Job.{
  Job, JobStatus, Model, photo_job, face_search_job, Db, SessionStatus, SearchSession, same_model,
  is_terminal, update,
}
use race_frame.Worker.Session.{
  Session, save, open_session, select_statuses, session_local_autoflush,
}
use race_frame.Worker.Attempt.{Current, processing, verify_active_attempt}
use race_frame.Worker.Parents.{
  is_of_photo, is_of_session, set_search_image, settle_session,
  mark_face_search_session_done_if_jobs_done,
}
use race_frame.Worker.Reading.{live-loaded, find_job-key, statuses-not_done}
use race_frame.Worker.StaleParents.{stale-statuses}
use race_frame.Worker.Report.{find_job, load_job}
use race_frame.Worker.Requests.{load_job-eq-ok}
use race_frame.Worker.Complete.{
  Work, CompletionOutside, cleared, completed_job, complete_with, complete_current, ready_image,
}
use race_frame.Worker.CompleteFaces.{
  finish_search, store_results, search_if, complete_worker_face_search_job,
}
use race_frame.Worker.CompleteRequest.{respond_work, complete_request}

pub update_self : {A : Type 0} (f : ℕ → A) (k : ℕ) (a : A) → update f k a k ≡ a
update_self f k a = ground arith

-- A list of statuses that are not all terminal is not empty.
not_done-filled :
    (statuses : List JobStatus) → all is_terminal statuses ≡ false → is_empty statuses ≡ false
not_done-filled [] h = cc
not_done-filled (status ∷ statuses) h = refl

settle_session-running :
    (now session_id : ℕ) (statuses : List JobStatus) (s : Session)
    → all is_terminal statuses ≡ false
    → ((settle_session now session_id statuses s).parents.search_sessions session_id).status
      ≡ SessionStatus.processing
unfolding settle_session
settle_session-running now session_id [] s h = cc
settle_session-running now session_id (status ∷ statuses) s h =
    rw (h, settle_session)
      (ap (λ (r : SearchSession). r.status) (update_self s.parents.search_sessions session_id _))

of_its_session :
    (job_id : ℕ) (job : Job)
    → (job.id == job_id && same_model job.model face_search_job) ≡ true
    → is_of_session job.search_session_id job ≡ true
of_its_session job_id job k = ground arith

pub of_its_photo :
    (job_id : ℕ) (job : Job)
    → (job.id == job_id && same_model job.model photo_job) ≡ true
    → is_of_photo job.parent_id job ≡ true
of_its_photo job_id job k = ground arith

module _ {E : Type 0} (outside : CompletionOutside E) (job_id : ℕ) (db : Db) (tables : Tables E)
    (job : Job) where
  finish_search-unfinished :
      find_job face_search_job job_id db.jobs ≡ some job
      → is_terminal job.status ≡ false
      → ((finish_search outside job
            (open_session session_local_autoflush db)).durable.parents.search_sessions
          job.search_session_id).status
        ≡ SessionStatus.processing
  unfolding finish_search mark_face_search_session_done_if_jobs_done select_statuses
  finish_search-unfinished found running =
      let last = completed_job outside.finished_now (cleared job) in
      let s = open_session session_local_autoflush db in
      let condition = is_of_session job.search_session_id in
      let read = stale-statuses condition (λ _. last) last db in
      let not_done =
        statuses-not_done condition face_search_job job_id db.jobs found
          (of_its_session job_id job (find_job-key face_search_job job_id db.jobs found)) running in
      let written = save last (set_search_image job.parent_id ready_image s) in
      settle_session-running outside.settled_now job.search_session_id
        (select_statuses condition written) written
        (subst (λ statuses. all is_terminal statuses ≡ false) (sym read) not_done)

  store_results-unfinished :
      (o : Option (List SearchResult)) (after : Work E) (current : Current)
      → find_job face_search_job job_id db.jobs ≡ some job
      → is_terminal job.status ≡ false
      → store_results outside job
          (record { session = open_session session_local_autoflush db; tables = tables })
          o
        ≡ ok (after, current)
      → (after.session.durable.parents.search_sessions job.search_session_id).status
        ≡ SessionStatus.processing
  store_results-unfinished none after current found running h = cc
  store_results-unfinished (some results) after current found running h =
      subst
        (λ (r : Work E × Current).
          (r.0.session.durable.parents.search_sessions job.search_session_id).status
          ≡ SessionStatus.processing)
        (ok-injective h) (finish_search-unfinished found running)

  search_if-unfinished :
      (o : Option E) (after : Work E) (current : Current)
      → find_job face_search_job job_id db.jobs ≡ some job
      → is_terminal job.status ≡ false
      → search_if outside job o
          (record { session = open_session session_local_autoflush db; tables = tables })
        ≡ ok (after, current)
      → (after.session.durable.parents.search_sessions job.search_session_id).status
        ≡ SessionStatus.processing
  search_if-unfinished none after current found running h = cc
  search_if-unfinished (some embedding) after current found running h =
      store_results-unfinished _ after current found running h

  running_only :
      (attempt_id now : ℕ) (current : Current)
      → job.status ≡ JobStatus.processing
      → verify_active_attempt job attempt_id true now ≡ ok current
      → current ≡ processing
  unfolding verify_active_attempt
  running_only attempt_id now current running h = ground arith

  -- The committed rows of a work that came back, by the reply of its request.
  pub committed_by :
      (P : Db → Type 0) (handler : Work E → Result (Work E × Current))
      → ((after : Work E) (current : Current)
          → handler (record { session = open_session session_local_autoflush db; tables = tables })
            ≡ ok (after, current)
          → P after.session.durable)
      → {answer : Current}
      → (complete_request session_local_autoflush handler (db, tables)).1 ≡ ok answer
      → P (complete_request session_local_autoflush handler (db, tables)).0.0
  committed_by P handler kept {answer} h =
      go (handler (record { session = open_session session_local_autoflush db; tables = tables }))
        refl h
    where
      go :
          (r : Result (Work E × Current))
          → handler (record { session = open_session session_local_autoflush db; tables = tables })
            ≡ r
          → (respond_work (db, tables) r).1 ≡ ok answer
          → P (respond_work (db, tables) r).0.0
      go (ok (after, current)) e k = kept after current e
      go (raise failure) e k = cc

  find-same :
      (model : Model) (loaded_job : Job)
      → find_job model job_id db.jobs ≡ some job
      → load_job model job_id (open_session session_local_autoflush db) ≡ ok loaded_job
      → job ≡ loaded_job
  find-same model loaded_job found is_loaded = some-injective _ _ (
      sym found
      ∙ (rw (live-loaded db.jobs) at
          (load_job-eq-ok model job_id (open_session session_local_autoflush db) is_loaded)))

  abbrev pub opened : Work E
  opened = record { session = open_session session_local_autoflush db; tables = tables }

  -- A reply for a job that was processing comes from its completion.
  pub completed_here :
      (model : Model) (attempt_id : ℕ) (complete : Job → Work E → Result (Work E × Current))
      (after : Work E) (current : Current)
      → find_job model job_id db.jobs ≡ some job
      → job.status ≡ JobStatus.processing
      → complete_with outside model job_id attempt_id complete opened ≡ ok (after, current)
      → complete job opened ≡ ok (after, current)
  unfolding complete_with
  completed_here model attempt_id complete after current found running h =
      let (loaded_job, is_loaded, h1) =
        >>=-eq-ok (load_job model job_id (open_session session_local_autoflush db)) _ h in
      let same = find-same model loaded_job found is_loaded in
      let (verified, is_verified, h2) =
        >>=-eq-ok (verify_active_attempt loaded_job attempt_id true outside.verify_now) _ h1 in
      let passed = running_only attempt_id outside.verify_now verified running (
        subst (λ j. verify_active_attempt j attempt_id true outside.verify_now ≡ ok verified)
          (sym same) is_verified) in
      subst (λ j. complete j opened ≡ ok (after, current)) (sym same)
        (subst
          (λ c.
            complete_current outside opened c (complete loaded_job opened) ≡ ok (after, current))
          passed h2)

  -- In the production session a search's job that completes leaves its search session processing, also if it was
  -- the last of the session: the job's own change is not flushed when the statuses are read.
  pub complete_worker_face_search_job-unfinished :
      (attempt_id : ℕ) (embedding : E) {answer : Current}
      → find_job face_search_job job_id db.jobs ≡ some job
      → job.status ≡ JobStatus.processing
      → let done =
          complete_request session_local_autoflush
            (complete_worker_face_search_job outside job_id attempt_id embedding)
            (db, tables) in
        done.1 ≡ ok answer
        → (done.0.0.parents.search_sessions job.search_session_id).status ≡ SessionStatus.processing
  unfolding complete_worker_face_search_job
  complete_worker_face_search_job-unfinished attempt_id embedding found running h =
      committed_by
        (λ after.
          (after.parents.search_sessions job.search_session_id).status ≡ SessionStatus.processing)
        (complete_worker_face_search_job outside job_id attempt_id embedding)
        (λ after current e.
          search_if-unfinished (outside.normalize embedding) after current found (rw running refl) (
            completed_here face_search_job attempt_id
              (λ j. search_if outside j (outside.normalize embedding)) after current found running
              e))
        h
