-- ===== src/Worker/StaleParents.antt =====
-- backend/app/worker_api.py with the session of backend/app/db.py: what a failure report makes of
-- the photo of its job. The session does not flush before a query, so the statuses that
-- `_sync_terminal_parent_state` reads are those before the report.
use race_frame.Prelude.{
  ℕ, ◌≡◌, refl, ap, ◌∙◌, subst, Bool, true, false, ◌&&◌, ◌==◌, map, inl, inr, some, arith,
  Bool-cases, keep, ltb,
}
use race_frame.Http.{ok, >>=-eq-ok, ok-injective}
use race_frame.Worker.Job.{Job, photo_job, Db, same_model, is_terminal}
use race_frame.Worker.Session.{
  Session, loaded, assign_rows, select_statuses, open_session, request, session_local_autoflush,
}
use race_frame.Worker.Parents.{Fallbacks, is_of_photo, sync_terminal_parent_state}
use race_frame.Worker.Attempt.{Current, processing, state, retry_scheduled, verify_active_attempt}
use race_frame.Worker.Ownership.{Owns, verify_active_attempt_iff}
use race_frame.Worker.Reading.{
  stored-loaded, live-loaded, stored-assign_rows, find_job-key, statuses-not_done,
}
use race_frame.Worker.Requests.{request_keeps, load_job-eq-ok}
use race_frame.Worker.Claim.{dead_letter}
use race_frame.Worker.Report.{
  Env, FailJobRequest, Reply, find_job, load_job, reported, ended, fail_job, finish_failure,
  fail_current, fail_handler,
}

-- The statuses that a query of the production session reads are those of the committed rows,
-- whatever was assigned since.
pub stale-statuses :
    (condition : Job → Bool) (f : Job → Job) (job : Job) (db : Db)
    → select_statuses condition (record (open_session session_local_autoflush db) {
      rows = assign_rows f job (map loaded db.jobs);
    })
      ≡ map (λ (row : Job). row.status) (keep condition db.jobs)
unfolding select_statuses
stale-statuses condition f job db =
    ap (λ jobs. map (λ (row : Job). row.status) (keep condition jobs))
      (stored-assign_rows f job (map loaded db.jobs) ∙ stored-loaded db.jobs)

of_its_photo :
    (job_id : ℕ) (job : Job)
    → (job.id == job_id && same_model job.model photo_job) ≡ true
    → is_of_photo job.parent_id job ≡ true
of_its_photo job_id job k = ground arith

sync-photo_stale :
    (texts : Fallbacks) (now job_id : ℕ) (f : Job → Job) (job last : Job) (db : Db)
    → find_job photo_job job_id db.jobs ≡ some job
    → is_terminal job.status ≡ false
    → last.parent_id ≡ job.parent_id
    → last.model ≡ photo_job
    → (sync_terminal_parent_state texts now last (record (open_session session_local_autoflush db) {
      rows = assign_rows f last (map loaded db.jobs);
    })).parents
      ≡ db.parents
unfolding sync_terminal_parent_state
sync-photo_stale texts now job_id f job last db found running same model = ground (
  arith,
  stale-statuses (is_of_photo last.parent_id) f last db,
  statuses-not_done (is_of_photo job.parent_id) photo_job job_id db.jobs found
      (of_its_photo job_id job (find_job-key photo_job job_id db.jobs found)) running,
)

ended-keeps :
    (env : Env) (payload : FailJobRequest) (job : Job)
    → ((ended env payload (reported payload job)).parent_id ≡ job.parent_id)
      × ((ended env payload (reported payload job)).model ≡ job.model)
unfolding ended reported dead_letter
ended-keeps env payload job = ground arith

finish_failure-photo_stale :
    (env : Env) (payload : FailJobRequest) (job_id : ℕ) (job : Job) (db : Db)
    → find_job photo_job job_id db.jobs ≡ some job
    → is_terminal job.status ≡ false
    → (finish_failure env payload job (open_session session_local_autoflush db)).0.durable.parents
      ≡ db.parents
unfolding finish_failure
finish_failure-photo_stale env payload job_id job db found running =
    let job' = reported payload job in
    let last = ended env payload job' in
    let kept = ended-keeps env payload job in
    elim (Bool-cases (payload.retryable && ltb job'.attempt_count job'.max_attempts)) [
      | inl again ↦ rw again refl
      | inr over ↦ rw over (
          sync-photo_stale env.texts env.sync_now job_id (λ _. last) job last db found running
            kept.0 (kept.1 ∙ key_model job_id job (find_job-key photo_job job_id db.jobs found)))
    ]
  where
    key_model :
        (job_id : ℕ) (job : Job)
        → (job.id == job_id && same_model job.model photo_job) ≡ true
        → job.model ≡ photo_job
    key_model job_id job k = ground arith

fail_current-photo_stale :
    (env : Env) (payload : FailJobRequest) (job_id : ℕ) (job : Job) (db : Db) (current : Current)
    → find_job photo_job job_id db.jobs ≡ some job
    → (current ≡ processing → Owns job payload.attempt_id env.verify_now)
    → (fail_current env payload job
        (open_session session_local_autoflush db)
        current).0.durable.parents
      ≡ db.parents
unfolding fail_current
fail_current-photo_stale env payload job_id job db processing found o =
    finish_failure-photo_stale env payload job_id job db found (rw ((o refl).running) refl)
fail_current-photo_stale env payload job_id job db (state status) found o = refl
fail_current-photo_stale env payload job_id job db retry_scheduled found o = refl

-- In the production session a failure report on a photo's job, the last one included, leaves the
-- photo's status as it was, and every other parent too: the statuses that decide it are read before
-- the job's own change is flushed.
pub fail_handler-photo_stale :
    (env : Env) (job_id : ℕ) (payload : FailJobRequest) (db : Db)
    → (request session_local_autoflush (fail_handler env photo_job job_id payload) db).0.parents
      ≡ db.parents
unfolding fail_handler fail_job
fail_handler-photo_stale env job_id payload db =
    let session = open_session session_local_autoflush db in
    request_keeps (λ db'. db'.parents ≡ db.parents) session_local_autoflush
      (fail_handler env photo_job job_id payload) db refl
      λ s reply e.
        let (job, loaded, e') = >>=-eq-ok (load_job photo_job job_id session) _ e in
        let (current, verified, e'') =
          >>=-eq-ok (verify_active_attempt job payload.attempt_id true env.verify_now) _ e' in
        let found = load_job-eq-ok photo_job job_id session loaded in
        subst (λ (r : Session × Reply). r.0.durable.parents ≡ db.parents) (ok-injective e'')
          (fail_current-photo_stale env payload job_id job db current
            (rw (live-loaded db.jobs) at found)
            (λ is.
              (verify_active_attempt_iff job payload.attempt_id env.verify_now true).0
                (verified ∙ ap ok is)))
