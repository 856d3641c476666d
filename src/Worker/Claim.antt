-- ===== src/Worker/Claim.antt =====
-- backend/app/worker_api.py: `_dead_letter`, `_reap_exhausted_jobs` and `_claim_job`. Rows that
-- another transaction has locked are skipped, and a moment is read at each `utc_now()`.
use race_frame.Prelude.{
  ℕ, ◌+◌, Bool, not, ◌&&◌, ◌||◌, List, [], ◌∷◌, Option, none, some, ltb, leb, head, take, order_by,
  null_or_le, or_text,
}
use race_frame.Worker.Job.{
  Job, JobStatus, Model, JobType, Settings, seconds, same_model, is_queued, is_processing,
  worker_lease_seconds,
}
use race_frame.Worker.Session.{Session, before_query, commit, save, assign, select_jobs}
use race_frame.Worker.Parents.{Fallbacks, sync_terminal_parent_state, mark_parent_processing}

-- Which jobs a claim asks for: the model, `job_type_condition`, and the rows that are not locked.
pub record ClaimRequest : Type 0 where
  pub model : Model
  pub job_type_condition : JobType → Bool
  pub is_locked : ℕ → Bool

-- What a claim reads from outside: the clock at its three places, a new `uuid4`, and the texts.
pub record Env : Type 0 where
  pub settings : Settings
  pub texts : Fallbacks
  pub exhausted_text : List ℕ
  pub reap_now : ℕ
  pub dead_now : ℕ → ℕ
  pub claim_now : ℕ
  pub uuid4 : ℕ

unfoldable pub dead_letter : ℕ → List ℕ → Job → Job
dead_letter now reason job = record job {
  status = JobStatus.dead_lettered;
  error_message = some (take 2_000 reason);
  retry_after = none;
  lease_expires_at = none;
  finished_at = some now;
  dead_lettered_at = some now;
}

-- `availability`: queued and due, or processing under a lease that is over.
unfoldable pub is_available : ℕ → Job → Bool
is_available now job =
    is_queued job.status && null_or_le job.retry_after now
    || is_processing job.status && null_or_le job.lease_expires_at now

abbrev pub is_asked : ClaimRequest → Job → Bool
is_asked r job =
    same_model job.model r.model && (r.job_type_condition job.job_type && not (r.is_locked job.id))

abbrev pub created : Job → ℕ
created job = job.created_at

unfoldable pub is_exhausted : ClaimRequest → ℕ → Job → Bool
unfolding is_available
is_exhausted r now job =
    is_asked r job && (leb job.max_attempts job.attempt_count && is_available now job)

unfoldable pub is_claimable : ClaimRequest → ℕ → Job → Bool
unfolding is_available
is_claimable r now job =
    is_asked r job && (ltb job.attempt_count job.max_attempts && is_available now job)

-- `exhausted.error_message or "Maximum processing attempts exhausted."`
unfoldable pub exhausted : Env → Job → Job
unfolding dead_letter
exhausted env job =
    dead_letter (env.dead_now job.id) (or_text job.error_message env.exhausted_text) job

-- One round of the loop of `_reap_exhausted_jobs`.
unfoldable pub reap_one : Env → Job → Session → Session
unfolding exhausted
reap_one env job s =
    sync_terminal_parent_state env.texts (env.dead_now job.id) (exhausted env job)
      (assign (exhausted env) job s)

unfoldable pub reap_all : Env → List Job → Session → Session
reap_all env [] s = s
reap_all env (job ∷ jobs) s = reap_all env jobs (reap_one env job s)

unfoldable pub exhausted_jobs : Env → ClaimRequest → Session → List Job
exhausted_jobs env r s = take 50 (order_by created (select_jobs (is_exhausted r env.reap_now) s))

unfoldable pub reap_exhausted_jobs : Env → ClaimRequest → Session → Session
unfolding exhausted_jobs
reap_exhausted_jobs env r s = let s' = before_query s in reap_all env (exhausted_jobs env r s') s'

unfoldable pub claimed : Env → Job → Job
claimed env job = record job {
  status = JobStatus.processing;
  attempt_count = job.attempt_count + 1;
  attempt_id = some env.uuid4;
  claimed_at = some env.claim_now;
  lease_expires_at = some (env.claim_now + seconds (worker_lease_seconds env.settings));
  retry_after = none;
  dead_lettered_at = none;
  error_message = none;
  finished_at = none;
}

-- The oldest claimable job; `scalar_one_or_none` of a query with `limit(1)`.
unfoldable pub next_job : Env → ClaimRequest → Session → Option Job
next_job env r s = head (order_by created (select_jobs (is_claimable r env.claim_now) s))

unfoldable pub take_job : Env → Option Job → Session → Session × Option Job
take_job env none s = (commit s, none)
take_job env (some job) s =
    let job' = claimed env job in (commit (mark_parent_processing job' (save job' s)), some job')

unfoldable pub claim_job : Env → ClaimRequest → Session → Session × Option Job
unfolding take_job next_job
claim_job env r s =
    let s' = before_query (reap_exhausted_jobs env r s) in take_job env (next_job env r s') s'
