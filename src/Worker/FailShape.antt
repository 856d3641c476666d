-- ===== src/Worker/FailShape.antt =====
-- backend/app/worker_api.py: a failure report keeps the shape of the rows.
use race_frame.Prelude.{
  ℕ, ◌≡◌, subst, refl, ap, Bool, true, inl, inr, All, All-map, Bool-cases, ltb, ◌≤◌, ◌∙◌, ◌&&◌,
}
use race_frame.Http.{ok, >>=-eq-ok, ok-injective}
use race_frame.Worker.Job.{Job, JobStatus, Model, Db}
use race_frame.Worker.Session.{Row, Session, live_of, open_session, request}
use race_frame.Worker.Rows.{All-sync}
use race_frame.Worker.Invariant.{Shape, IsWellFormed, Db-IsWellFormed, save-live}
use race_frame.Worker.Attempt.{Current, processing, state, retry_scheduled, verify_active_attempt}
use race_frame.Worker.Ownership.{Owns, verify_active_attempt_iff}
use race_frame.Worker.Claim.{dead_letter}
use race_frame.Worker.Report.{
  Env, FailJobRequest, Reply, reported, requeued, ended, fail_job, load_job, fail_handler,
  finish_failure, fail_current,
}
use race_frame.Worker.Requests.{
  request_keeps, All-load_job, saved-IsWellFormed, owned-Shape, opened-IsWellFormed,
}

ended-IsWellFormed :
    (env : Env) (payload : FailJobRequest) (job : Job)
    → Shape JobStatus.processing job
    → job.attempt_count ≤ job.max_attempts
    → IsWellFormed (ended env payload (reported payload job))
unfolding ended reported dead_letter
ended-IsWellFormed env payload job shape bound = elim (Bool-cases payload.retryable) [
  | inl e ↦ rw e (bound, (refl, refl, cc, cc))
  | inr e ↦ rw e (bound, (refl, refl, cc, shape.4))
]

requeued-IsWellFormed :
    (env : Env) (payload : FailJobRequest) (job : Job)
    → Shape JobStatus.processing job
    → job.attempt_count ≤ job.max_attempts
    → IsWellFormed (requeued env (reported payload job))
unfolding requeued reported
requeued-IsWellFormed env payload job shape bound = (bound, (refl, refl, shape.4))

finish_failure-IsWellFormed :
    (env : Env) (payload : FailJobRequest) (job : Job) (s : Session)
    → Shape JobStatus.processing job
    → job.attempt_count ≤ job.max_attempts
    → All (λ (row : Row). IsWellFormed row.live) s.rows
    → All IsWellFormed (finish_failure env payload job s).0.durable.jobs
unfolding finish_failure
finish_failure-IsWellFormed env payload job s shape bound h =
    let job' = reported payload job in
    let last = ended env payload job' in
    elim (Bool-cases (payload.retryable && ltb job'.attempt_count job'.max_attempts)) [
      | inl again ↦ rw again (
          saved-IsWellFormed (requeued env job') s
            (requeued-IsWellFormed env payload job shape bound) h)
      | inr over ↦ rw over (
          All-map IsWellFormed live_of _ (
            All-sync (λ row. IsWellFormed row.live) (λ row k. k) env.texts env.sync_now last _
              (save-live IsWellFormed last s.rows (ended-IsWellFormed env payload job shape bound)
                h)))
    ]

fail_current-IsWellFormed :
    (env : Env) (payload : FailJobRequest) (job : Job) (s : Session) (current : Current)
    → (current ≡ processing → Owns job payload.attempt_id env.verify_now)
    → IsWellFormed job
    → All IsWellFormed s.durable.jobs
    → All (λ (row : Row). IsWellFormed row.live) s.rows
    → All IsWellFormed (fail_current env payload job s current).0.durable.jobs
unfolding fail_current
fail_current-IsWellFormed env payload job s processing o v d h =
    finish_failure-IsWellFormed env payload job s (owned-Shape job (o refl) v) v.0 h
fail_current-IsWellFormed env payload job s (state status) o v d h = d
fail_current-IsWellFormed env payload job s retry_scheduled o v d h = d

-- A failure report, accepted or refused, keeps every committed row in its shape: the attempts within
-- their bound and the columns that go with the row's status.
pub fail_handler-IsWellFormed :
    (env : Env) (model : Model) (job_id : ℕ) (payload : FailJobRequest) (autoflush : Bool) (db : Db)
    → Db-IsWellFormed db
    → Db-IsWellFormed (request autoflush (fail_handler env model job_id payload) db).0
unfolding fail_handler fail_job
fail_handler-IsWellFormed env model job_id payload autoflush db h =
    request_keeps Db-IsWellFormed autoflush (fail_handler env model job_id payload) db h
      λ s reply e.
        let opened = opened-IsWellFormed autoflush db h in
        let (job, found, e') = >>=-eq-ok (load_job model job_id (open_session autoflush db)) _ e in
        let (current, verified, e'') =
          >>=-eq-ok (verify_active_attempt job payload.attempt_id true env.verify_now) _ e' in
        subst (λ (r : Session × Reply). All IsWellFormed r.0.durable.jobs) (ok-injective e'')
          (fail_current-IsWellFormed env payload job (open_session autoflush db) current
            (λ is.
              (verify_active_attempt_iff job payload.attempt_id env.verify_now true).0
                (verified ∙ ap ok is))
            (All-load_job IsWellFormed model job_id (open_session autoflush db) opened found) h
            opened)
