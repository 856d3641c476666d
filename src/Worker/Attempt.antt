-- ===== src/Worker/Attempt.antt =====
-- backend/app/worker_api.py: who owns a job. `_attempt_matches` and `_verify_active_attempt`.
use race_frame.Prelude.{
  ℕ, Bool, true, false, not, ◌&&◌, ◌||◌, Option, none, some, ◌==◌, leb, if◌then◌else◌,
}
use race_frame.Http.{Result, ok, http}
use race_frame.Worker.Job.{Job, JobStatus, is_queued, is_processing, is_terminal}

-- What `_verify_active_attempt` returns, and the `status` of a reply.
pub data Current : Type 0 where
  processing : Current
  state : JobStatus → Current
  retry_scheduled : Current

unfoldable pub attempt_matches : Option ℕ → ℕ → Bool
attempt_matches none supplied = false
attempt_matches (some stored) supplied = stored == supplied

-- `job.lease_expires_at is None or job.lease_expires_at <= utc_now()`
abbrev pub lease_is_over : Option ℕ → ℕ → Bool
lease_is_over none now = true
lease_is_over (some t) now = leb t now

unfoldable pub verify_active_attempt : Job → ℕ → Bool → ℕ → Result Current
unfolding attempt_matches
verify_active_attempt job attempt_id allow_terminal now =
    let matches = attempt_matches job.attempt_id attempt_id in
    if allow_terminal && (matches && is_terminal job.status)
    then ok (state job.status)
    else if allow_terminal && (matches && is_queued job.status)
    then ok retry_scheduled
    else if not (is_processing job.status) || not matches
    then http 409 "The job is not owned by this worker attempt."
    else if lease_is_over job.lease_expires_at now
    then http 409 "The worker lease has expired."
    else ok processing
