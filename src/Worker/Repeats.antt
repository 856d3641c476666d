-- ===== src/Worker/Repeats.antt =====
-- backend/app/worker_api.py: a report that a worker repeats, because the first reply was lost,
-- changes nothing and gets the same status.
use race_frame.Prelude.{
  ℕ, ◌≡◌, ◌≢◌, refl, sym, ap, ◌∙◌, subst, Bool, true, ◌&&◌, ◌==◌, map, inl, inr, some, arith,
  Bool-cases, ltb,
}
use race_frame.Http.{Result, ok, raise, >>=-eq-ok, ok-injective}
use race_frame.Worker.Job.{Job, Model, Db, same_model}
use race_frame.Worker.Session.{Session, live_of, loaded, save, open_session, request, respond}
use race_frame.Worker.Attempt.{Current, processing, state, retry_scheduled, verify_active_attempt}
use race_frame.Worker.Ownership.{verify_active_attempt_iff}
use race_frame.Worker.Reading.{live-loaded, live-sync, find_job-key, find_job-saved}
use race_frame.Worker.Requests.{load_job-eq-ok}
use race_frame.Worker.Claim.{dead_letter}
use race_frame.Worker.Report.{
  Env, FailJobRequest, Reply, only, find_job, load_job, reported, requeued, ended, fail_job,
  finish_failure, fail_current, fail_handler,
}

-- The committed row answers a report of this attempt with `current`, at any time.
abbrev Answers : Model → ℕ → FailJobRequest → Db → Current → Type 0
Answers model job_id payload db current =
    (job : Job) × (find_job model job_id db.jobs ≡ some job)
    × ((now : ℕ) → verify_active_attempt job payload.attempt_id true now ≡ ok current)

requeued-answers :
    (env : Env) (payload : FailJobRequest) (job : Job) (now : ℕ)
    → job.attempt_id ≡ some payload.attempt_id
    → verify_active_attempt (requeued env (reported payload job)) payload.attempt_id true now
      ≡ ok retry_scheduled
unfolding requeued reported verify_active_attempt
requeued-answers env payload job now o = ground arith

ended-answers :
    (env : Env) (payload : FailJobRequest) (job : Job) (now : ℕ)
    → job.attempt_id ≡ some payload.attempt_id
    → verify_active_attempt (ended env payload (reported payload job)) payload.attempt_id true now
      ≡ ok (state (ended env payload (reported payload job)).status)
unfolding ended reported dead_letter verify_active_attempt
ended-answers env payload job now o = ground arith

keys-kept :
    (env : Env) (payload : FailJobRequest) (job : Job) (model : Model) (job_id : ℕ)
    → (job.id == job_id && same_model job.model model) ≡ true
    → (((requeued env (reported payload job)).id == job_id
          && same_model (requeued env (reported payload job)).model model)
        ≡ true)
      × (((ended env payload (reported payload job)).id == job_id
            && same_model (ended env payload (reported payload job)).model model)
          ≡ true)
unfolding requeued ended reported dead_letter
keys-kept env payload job model job_id k = ground arith

finish_failure-Answers :
    (env : Env) (payload : FailJobRequest) (model : Model) (job_id : ℕ) (job : Job) (s : Session)
    → find_job model job_id (map live_of s.rows) ≡ some job
    → job.attempt_id ≡ some payload.attempt_id
    → Answers model job_id payload
        (finish_failure env payload job s).0.durable
        (finish_failure env payload job s).1.status
unfolding finish_failure
finish_failure-Answers env payload model job_id job s found o =
    let job' = reported payload job in
    let last = ended env payload job' in
    let kept =
      keys-kept env payload job model job_id
        (find_job-key model job_id (map live_of s.rows) found) in
    elim (Bool-cases (payload.retryable && ltb job'.attempt_count job'.max_attempts)) [
      | inl again ↦ rw again (
        requeued env job',
        find_job-saved model job_id (requeued env job') s.rows kept.0 found,
        λ now. requeued-answers env payload job now o,
      )
      | inr over ↦ rw over (
        last,
        ap (find_job model job_id) (live-sync env.texts env.sync_now last (save last s))
            ∙ find_job-saved model job_id last s.rows kept.1 found,
        λ now. ended-answers env payload job now o,
      )
    ]

current-stays :
    (job : Job) (attempt_id now later : ℕ) (current : Current)
    → verify_active_attempt job attempt_id true now ≡ ok current
    → current ≢ processing
    → verify_active_attempt job attempt_id true later ≡ ok current
unfolding verify_active_attempt
current-stays job attempt_id now later processing e ne = absurd (ne refl)
current-stays job attempt_id now later (state status) e ne = ground arith
current-stays job attempt_id now later retry_scheduled e ne = ground arith

fail_current-Answers :
    (env : Env) (payload : FailJobRequest) (model : Model) (job_id : ℕ) (job : Job)
    (autoflush : Bool) (db : Db) (current : Current)
    → find_job model job_id db.jobs ≡ some job
    → verify_active_attempt job payload.attempt_id true env.verify_now ≡ ok current
    → Answers model job_id payload
        (fail_current env payload job (open_session autoflush db) current).0.durable
        (fail_current env payload job (open_session autoflush db) current).1.status
unfolding fail_current
fail_current-Answers env payload model job_id job autoflush db processing found verified =
    finish_failure-Answers env payload model job_id job (open_session autoflush db)
      (rw (live-loaded db.jobs) found)
      ((verify_active_attempt_iff job payload.attempt_id env.verify_now true).0 verified).attempt
fail_current-Answers env payload model job_id job autoflush db (state status) found verified = (
  job,
  found,
  λ now. current-stays job payload.attempt_id env.verify_now now (state status) verified (cc),
)
fail_current-Answers env payload model job_id job autoflush db retry_scheduled found verified = (
  job,
  found,
  λ now. current-stays job payload.attempt_id env.verify_now now retry_scheduled verified (cc),
)

-- A status that a first report got is not `processing`, so the repeated one only reads.
fail_current-ne-processing :
    (env : Env) (payload : FailJobRequest) (job : Job) (s : Session) (current : Current)
    → (fail_current env payload job s current).1.status ≢ processing
unfolding fail_current finish_failure
fail_current-ne-processing env payload job s processing = ground arith
fail_current-ne-processing env payload job s (state status) = cc
fail_current-ne-processing env payload job s retry_scheduled = cc

read_only :
    (env : Env) (payload : FailJobRequest) (job : Job) (s : Session) (current : Current)
    → current ≢ processing
    → fail_current env payload job s current ≡ (s, only current)
unfolding fail_current
read_only env payload job s processing ne = absurd (ne refl)
read_only env payload job s (state status) ne = refl
read_only env payload job s retry_scheduled ne = refl

load_again :
    (model : Model) (job_id : ℕ) (autoflush : Bool) (db : Db) {job : Job}
    → find_job model job_id db.jobs ≡ some job
    → load_job model job_id (open_session autoflush db) ≡ ok job
unfolding load_job
load_again model job_id autoflush db found = ground (arith, live-loaded db.jobs)

answered :
    (env : Env) (model : Model) (job_id : ℕ) (payload : FailJobRequest) (autoflush : Bool) (db : Db)
    (current : Current)
    → Answers model job_id payload db current
    → current ≢ processing
    → request autoflush (fail_handler env model job_id payload) db ≡ (db, ok (only current))
unfolding fail_handler fail_job
answered env model job_id payload autoflush db current (job, found, verified) ne = rw (
  load_again model job_id autoflush db found,
  verified env.verify_now,
  read_only env payload job _ current ne,
)

replied :
    (env : Env) (model : Model) (job_id : ℕ) (payload : FailJobRequest) (autoflush : Bool) (db : Db)
    (s : Session) (reply : Reply)
    → fail_handler env model job_id payload (open_session autoflush db) ≡ ok (s, reply)
    → Answers model job_id payload s.durable reply.status × (reply.status ≢ processing)
unfolding fail_handler fail_job
replied env model job_id payload autoflush db s reply e =
    let session = open_session autoflush db in
    let (job, loaded, e') = >>=-eq-ok (load_job model job_id session) _ e in
    let (current, verified, e'') =
      >>=-eq-ok (verify_active_attempt job payload.attempt_id true env.verify_now) _ e' in
    let found = rw (live-loaded db.jobs) at (load_job-eq-ok model job_id session loaded) in
    subst
      (λ (r : Session × Reply).
        Answers model job_id payload r.0.durable r.1.status × (r.1.status ≢ processing))
      (ok-injective e'')
      (
        fail_current-Answers env payload model job_id job autoflush db current found verified,
        fail_current-ne-processing env payload job session current,
      )

respond-eq-ok :
    (db : Db) (r : Result (Session × Reply)) (reply : Reply)
    → (respond db r).1 ≡ ok reply
    → (s : Session) × (r ≡ ok (s, reply)) × ((respond db r).0 ≡ s.durable)
respond-eq-ok db (ok (s, a)) reply e = (s, rw (ok-injective e), refl)
respond-eq-ok db (raise x) reply e = cc

-- If a failure report gets a reply, the same report on the rows that it left gets the same status,
-- with no time of retry, and changes no committed row and no parent, whenever it comes.
pub fail_handler-idempotent :
    (env later : Env) (model : Model) (job_id : ℕ) (payload : FailJobRequest) (autoflush : Bool)
    (db : Db) (reply : Reply)
    → (request autoflush (fail_handler env model job_id payload) db).1 ≡ ok reply
    → request autoflush
        (fail_handler later model job_id payload)
        (request autoflush (fail_handler env model job_id payload) db).0
      ≡ ((request autoflush (fail_handler env model job_id payload) db).0, ok (only reply.status))
fail_handler-idempotent env later model job_id payload autoflush db reply e =
    let (s, is, left) = respond-eq-ok db _ reply e in
    let (answers, ne) = replied env model job_id payload autoflush db s reply is in
    subst
      (λ db'.
        request autoflush (fail_handler later model job_id payload) db'
        ≡ (db', ok (only reply.status)))
      (sym left) (answered later model job_id payload autoflush s.durable reply.status answers ne)
