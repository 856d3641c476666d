-- ===== src/Worker/Tests.antt =====
-- Runs of the control plane at concrete rows, as in backend/tests/test_worker_protocol.py, and the
-- theorems at inputs that meet their hypotheses.
use race_frame.Prelude.{
  ℕ, ◌≡◌, refl, true, false, [], ◌∷◌, none, some, arith, All, take, keep, order_by,
}
use race_frame.Http.{ok, http}
use race_frame.Worker.Job.{
  Job, JobStatus, JobType, Settings, PhotoStatus, ImageStatus, SessionStatus, Db, same_row,
  worker_lease_seconds, worker_retry_base_seconds, worker_retry_max_seconds, photo_job,
}
use race_frame.Worker.Session.{
  open_session, session_local_autoflush, request, select_jobs, select_statuses, assign_rows,
}
use race_frame.Worker.Attempt.{processing, retry_scheduled, verify_active_attempt}
use race_frame.Worker.Parents.{
  Fallbacks, sync_terminal_parent_state, mark_parent_processing, photo_outcome, session_outcome,
}
use race_frame.Worker.Claim
use race_frame.Worker.Claim.{
  ClaimRequest, claim_job, reap_exhausted_jobs, reap_all, reap_one, is_claimable, is_exhausted,
  claimed, take_job,
}
use race_frame.Worker.Report
use race_frame.Worker.Report.{
  FailJobRequest, only, retry_delay, exponential_delay, failure_text, reported, requeued, ended,
  fail_job, finish_failure, fail_current, find_job, load_job, fail_handler, heartbeat_handler,
  heartbeat_job,
}
use race_frame.Worker.Invariant.{Db-IsWellFormed, claim_job-IsWellFormed}
use race_frame.Worker.FailShape.{fail_handler-IsWellFormed}
use race_frame.Worker.Leases.{claim_job-exclusive, claim_job-fences}
use race_frame.Worker.Queue.{Serves, claim_job-Serves}
use race_frame.Worker.StaleParents.{fail_handler-photo_stale}
use race_frame.Worker.Repeats.{fail_handler-idempotent}

program : Unit {0}
unfolding claim_job reap_exhausted_jobs reap_all reap_one is_claimable is_exhausted claimed take_job
    select_jobs assign_rows sync_terminal_parent_state mark_parent_processing keep order_by take
    select_statuses worker_lease_seconds
program = tt

reports : Unit {0}
unfolding program fail_handler load_job find_job fail_job verify_active_attempt fail_current
    finish_failure reported requeued ended failure_text retry_delay exponential_delay photo_outcome
    session_outcome worker_retry_max_seconds worker_retry_base_seconds heartbeat_handler
    heartbeat_job
reports = tt

abbrev defaults : Settings
defaults = record {
  worker_lease_seconds = 300;
  worker_retry_base_seconds = 10;
  worker_retry_max_seconds = 900;
}

abbrev texts : Fallbacks
texts = record { face_processing_failed = b'F' ∷ []; face_search_failed = b'S' ∷ [] }

-- A photo's OCR job with two attempts, as the test's `setUp` makes it.
abbrev ocr_job : Job
ocr_job = record {
  id = 7;
  model = photo_job;
  job_type = JobType.ocr;
  parent_id = 1;
  search_session_id = 0;
  status = JobStatus.queued;
  attempt_count = 0;
  max_attempts = 2;
  attempt_id = none;
  claimed_at = none;
  lease_expires_at = none;
  retry_after = none;
  dead_lettered_at = none;
  error_message = none;
  created_at = 5;
  finished_at = none;
}

abbrev one_photo : Db
one_photo = record {
  jobs = ocr_job ∷ [];
  parents = record {
    photos = λ k. PhotoStatus.uploaded;
    face_images = λ k. record { status = ImageStatus.queued; error_message = none };
    search_images = λ k. record { status = ImageStatus.queued; error_message = none };
    search_sessions = λ k. record { status = SessionStatus.queued; finished_at = none };
  };
}

abbrev any_ocr : ClaimRequest
any_ocr = record {
  model = photo_job;
  job_type_condition = λ t. elim t [ JobType.ocr ↦ true | _ ↦ false ];
  is_locked = λ id. false;
}

abbrev at : ℕ → ℕ → Claim.Env
at now uuid4 = record {
  settings = defaults;
  texts = texts;
  exhausted_text = b'M' ∷ [];
  reap_now = now;
  dead_now = λ id. now;
  claim_now = now;
  uuid4 = uuid4;
}

abbrev report_at : ℕ → Report.Env
report_at now = record {
  settings = defaults;
  texts = texts;
  verify_now = now;
  now = now;
  dead_now = now;
  sync_now = now;
  jitter = record { numerator = 1; denominator = 1 };
}

abbrev unavailable : ℕ → FailJobRequest
unavailable attempt_id = record {
  attempt_id = attempt_id;
  error_message = b'e' ∷ [];
  retryable = true;
  error_code = none;
}

abbrev claimed_once : Job
claimed_once = record ocr_job {
  status = JobStatus.processing;
  attempt_count = 1;
  attempt_id = some 100;
  claimed_at = some 1000;
  lease_expires_at = some 300_001_000;
}

abbrev claimed_db : Db
claimed_db = record one_photo { jobs = claimed_once ∷ [] }

first_claim :
    (claim_job (at 1000 100) any_ocr (open_session session_local_autoflush one_photo)).1
    ≡ some claimed_once
unfolding program
first_claim = refl

-- `test_retry_then_dead_letter_has_bounded_attempts`: the first failure waits 10 seconds.
abbrev waiting : Job
waiting = record claimed_once {
  status = JobStatus.queued;
  lease_expires_at = none;
  retry_after = some 10_002_000;
  error_message = some (b'e' ∷ []);
}

first_failure :
    (request session_local_autoflush
      (fail_handler (report_at 2000) photo_job 7 (unavailable 100))
      claimed_db)
    ≡ (
      record one_photo { jobs = waiting ∷ [] },
      ok (record { status = retry_scheduled; moment = some 10_002_000 }),
    )
unfolding reports
first_failure = refl

-- The second failure is the last: with the test's flushing session the photo fails, with the
-- production session it stays as it was.
abbrev claimed_twice : Job
claimed_twice = record claimed_once { attempt_count = 2; attempt_id = some 200 }

abbrev last_db : Db
last_db = record one_photo { jobs = claimed_twice ∷ [] }

last_failure_flushed :
    (request true
        (fail_handler (report_at 2000) photo_job 7 (unavailable 200))
        last_db).0.parents.photos
      1
    ≡ PhotoStatus.failed
unfolding reports
last_failure_flushed = refl

last_failure_stale :
    (request session_local_autoflush
        (fail_handler (report_at 2000) photo_job 7 (unavailable 200))
        last_db).0.parents.photos
      1
    ≡ PhotoStatus.uploaded
unfolding reports
last_failure_stale = refl

stale_worker :
    (request session_local_autoflush
      (fail_handler (report_at 2000) photo_job 7 (unavailable 101))
      claimed_db).1
    ≡ http 409 "The job is not owned by this worker attempt."
unfolding reports
stale_worker = refl

late_heartbeat :
    (request session_local_autoflush
      (heartbeat_handler (report_at 300_001_000) photo_job 7 100)
      claimed_db).1
    ≡ http 409 "The worker lease has expired."
unfolding reports
late_heartbeat = refl

one_photo-IsWellFormed : Db-IsWellFormed one_photo
one_photo-IsWellFormed = ((omega arith, (refl, refl, refl)), tt)

claimed_db-IsWellFormed : Db-IsWellFormed claimed_db
claimed_db-IsWellFormed = ((omega arith, (cc, cc, refl, refl, refl)), tt)

claim_job-IsWellFormed_example :
    Db-IsWellFormed
      (claim_job (at 1000 100) any_ocr (open_session session_local_autoflush one_photo)).0.durable
claim_job-IsWellFormed_example =
    claim_job-IsWellFormed (at 1000 100) any_ocr session_local_autoflush one_photo
      one_photo-IsWellFormed

fail_handler-IsWellFormed_example :
    Db-IsWellFormed
      (request session_local_autoflush
        (fail_handler (report_at 2000) photo_job 7 (unavailable 100))
        claimed_db).0
fail_handler-IsWellFormed_example =
    fail_handler-IsWellFormed (report_at 2000) photo_job 7 (unavailable 100) session_local_autoflush
      claimed_db claimed_db-IsWellFormed

-- Two queued jobs: the second claim, before the lease of the first ends, gets the other.
abbrev other_job : Job
other_job = record ocr_job { id = 8; created_at = 6 }

abbrev two_jobs : Db
two_jobs = record one_photo { jobs = other_job ∷ ocr_job ∷ [] }

abbrev claimed_other : Job
claimed_other = record other_job {
  status = JobStatus.processing;
  attempt_count = 1;
  attempt_id = some 101;
  claimed_at = some 2000;
  lease_expires_at = some 300_002_000;
}

claim_job-exclusive_example : same_row claimed_other claimed_once ≡ false
unfolding program
claim_job-exclusive_example =
    claim_job-exclusive (at 1000 100) (at 2000 101) any_ocr any_ocr session_local_autoflush two_jobs
      claimed_once claimed_other refl (omega arith) (omega arith) refl

claim_job-fences_example :
    All
      (λ row.
        same_row row claimed_once ≡ true
        → verify_active_attempt row 99 true 2000
          ≡ http 409 "The job is not owned by this worker attempt.")
      (claim_job
        (at 1000 100)
        any_ocr
        (open_session session_local_autoflush one_photo)).0.durable.jobs
claim_job-fences_example =
    claim_job-fences (at 1000 100) any_ocr session_local_autoflush one_photo claimed_once 99 2000
      true first_claim (omega arith)

claim_job-Serves_example :
    Serves
      (is_claimable any_ocr 1000)
      (claim_job (at 1000 100) any_ocr (open_session session_local_autoflush two_jobs)).1
      two_jobs.jobs
claim_job-Serves_example = claim_job-Serves (at 1000 100) any_ocr two_jobs

fail_handler-photo_stale_example :
    (request session_local_autoflush
      (fail_handler (report_at 2000) photo_job 7 (unavailable 200))
      last_db).0.parents
    ≡ last_db.parents
fail_handler-photo_stale_example =
    fail_handler-photo_stale (report_at 2000) 7 (unavailable 200) last_db

fail_handler-idempotent_example :
    request session_local_autoflush
      (fail_handler (report_at 9000) photo_job 7 (unavailable 100))
      (request session_local_autoflush
        (fail_handler (report_at 2000) photo_job 7 (unavailable 100))
        claimed_db).0
    ≡ (
      (request session_local_autoflush
          (fail_handler (report_at 2000) photo_job 7 (unavailable 100))
          claimed_db).0,
      ok (only retry_scheduled),
    )
unfolding reports
fail_handler-idempotent_example =
    fail_handler-idempotent (report_at 2000) (report_at 9000) photo_job 7 (unavailable 100)
      session_local_autoflush claimed_db
      (record { status = retry_scheduled; moment = some 10_002_000 }) refl
