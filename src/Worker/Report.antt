-- ===== src/Worker/Report.antt =====
-- backend/app/worker_api.py: `_retry_delay`, `_fail_job` and `_heartbeat_job`, and the handlers
-- that load the row of the request's path first.
use Prim.Native.String.{String}
use race_frame.Prelude.{
  ℕ, ◌+◌, ◌-◌, ◌*◌, ◌/◌, ◌^◌, min, max, Bool, true, false, ◌&&◌, List, [], ◌∷◌, ◌++◌, map, Option,
  none, some, ltb, ◌==◌, take, if◌then◌else◌,
}
use race_frame.Http.{Result, ok, http, ◌>>=◌}
use race_frame.Worker.Job.{
  Job, JobStatus, Model, Settings, seconds, same_model, worker_lease_seconds,
  worker_retry_base_seconds, worker_retry_max_seconds,
}
use race_frame.Worker.Session.{Session, commit, save, live_of}
use race_frame.Worker.Attempt.{Current, state, processing, retry_scheduled, verify_active_attempt}
use race_frame.Worker.Parents.{Fallbacks, sync_terminal_parent_state}
use race_frame.Worker.Claim.{dead_letter}

-- `random.uniform(0.8, 1.2)`, as a fraction.
pub record Jitter : Type 0 where
  pub numerator : ℕ
  pub denominator : ℕ

unfoldable pub exponential_delay : Settings → ℕ → ℕ
exponential_delay s attempt_count =
    min (worker_retry_max_seconds s)
      (worker_retry_base_seconds s * 2 ^ min 20 (max 0 (attempt_count - 1)))

unfoldable pub retry_delay : Settings → Jitter → ℕ → ℕ
retry_delay s jitter attempt_count =
    max 1 (exponential_delay s attempt_count * jitter.numerator / jitter.denominator)

pub record FailJobRequest : Type 0 where
  pub attempt_id : ℕ
  pub error_message : List ℕ
  pub retryable : Bool
  pub error_code : Option (List ℕ)

-- What a report reads from outside: the clock at its places and the random factor.
pub record Env : Type 0 where
  pub settings : Settings
  pub texts : Fallbacks
  pub verify_now : ℕ
  pub now : ℕ
  pub dead_now : ℕ
  pub sync_now : ℕ
  pub jitter : Jitter

pub record Reply : Type 0 where
  pub status : Current
  pub moment : Option ℕ

abbrev pub only : Current → Reply
only status = record { status = status; moment = none }

-- `f"[{payload.error_code}] "`, or nothing. An empty code is refused by the request model.
abbrev pub prefix : Option (List ℕ) → List ℕ
prefix none = []
prefix (some code) = b'[' ∷ code ++ (b']' ∷ b' ' ∷ [])

unfoldable pub failure_text : FailJobRequest → List ℕ
unfolding take
failure_text payload = take 2_000 (prefix payload.error_code ++ payload.error_message)

-- The job after the assignments that precede the branch on `retryable`.
unfoldable pub reported : FailJobRequest → Job → Job
reported payload job = record job {
  error_message = some (failure_text payload);
  lease_expires_at = none;
}

unfoldable pub requeued : Env → Job → Job
requeued env job = record job {
  status = JobStatus.queued;
  retry_after = some (env.now + seconds (retry_delay env.settings env.jitter job.attempt_count));
  finished_at = none;
}

unfoldable pub ended : Env → FailJobRequest → Job → Job
ended env payload job =
    if payload.retryable
    then dead_letter env.dead_now (failure_text payload) job
    else record job { status = JobStatus.failed; retry_after = none; finished_at = some env.now }

unfoldable pub finish_failure : Env → FailJobRequest → Job → Session → Session × Reply
finish_failure env payload job s =
    let job' = reported payload job in
    let again = requeued env job' in
    let last = ended env payload job' in
    if payload.retryable && ltb job'.attempt_count job'.max_attempts
    then (commit (save again s), record { status = retry_scheduled; moment = again.retry_after })
    else (
      commit (sync_terminal_parent_state env.texts env.sync_now last (save last s)),
      only (state last.status),
    )

unfoldable pub fail_current : Env → FailJobRequest → Job → Session → Current → Session × Reply
fail_current env payload job s processing = finish_failure env payload job s
fail_current env payload job s current = (s, only current)

unfoldable pub fail_job : Env → FailJobRequest → Job → Session → Result (Session × Reply)
unfolding fail_current finish_failure
fail_job env payload job s = do
  current ← verify_active_attempt job payload.attempt_id true env.verify_now
  ok (fail_current env payload job s current)

unfoldable pub renewed : Env → Job → Job
renewed env job = record job {
  lease_expires_at = some (env.now + seconds (worker_lease_seconds env.settings));
}

unfoldable pub renew_lease : Env → Job → Session → Session × Reply
renew_lease env job s =
    let job' = renewed env job in
    (commit (save job' s), record { status = processing; moment = job'.lease_expires_at })

-- A state other than `processing` is refused; `_verify_active_attempt` has raised before.
unfoldable pub heartbeat_current : Env → Job → Session → Current → Result (Session × Reply)
heartbeat_current env job s processing = ok (renew_lease env job s)
heartbeat_current env job s _ = http 409 "The worker no longer owns this job."

unfoldable pub heartbeat_job : Env → ℕ → Job → Session → Result (Session × Reply)
unfolding heartbeat_current renew_lease renewed
heartbeat_job env attempt_id job s = do
  current ← verify_active_attempt job attempt_id false env.verify_now
  heartbeat_current env job s current

-- `_load_photo_job` and its two siblings: the row of the path, or a 404.
unfoldable pub find_job : Model → ℕ → List Job → Option Job
find_job model job_id [] = none
find_job model job_id (row ∷ rows) =
    if row.id == job_id && same_model row.model model then some row else find_job model job_id rows

abbrev missing_text : Model → String
missing_text Model.photo_job = "Photo job not found."
missing_text Model.participant_face_job = "Face job not found."
missing_text Model.face_search_job = "Face search job not found."

unfoldable pub load_job : Model → ℕ → Session → Result Job
unfolding find_job
load_job model job_id s = elim (find_job model job_id (map live_of s.rows)) [
  | none ↦ http 404 (missing_text model)
  | some job ↦ ok job
]

-- The three `fail` handlers, which differ in the table.
unfoldable pub fail_handler : Env → Model → ℕ → FailJobRequest → Session → Result (Session × Reply)
fail_handler env model job_id payload s = do
  job ← load_job model job_id s
  fail_job env payload job s

-- The three `heartbeat` handlers.
unfoldable pub heartbeat_handler : Env → Model → ℕ → ℕ → Session → Result (Session × Reply)
heartbeat_handler env model job_id attempt_id s = do
  job ← load_job model job_id s
  heartbeat_job env attempt_id job s
