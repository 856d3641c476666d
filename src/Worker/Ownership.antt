-- ===== src/Worker/Ownership.antt =====
-- backend/app/worker_api.py: what the check of a worker's attempt lets through, and what a report
-- does on each of its branches.
use race_frame.Prelude.{ℕ, ◌<◌, ◌≡◌, ◌↔◌, refl, Bool, false, Option, none, some, arith}
use race_frame.Http.{ok}
use race_frame.Worker.Job.{Job, JobStatus}
use race_frame.Worker.Attempt.{processing, lease_is_over, verify_active_attempt}

-- The attempt owns the job: the row is processing under this attempt, and its lease has not ended.
pub record Owns (job : Job) (attempt_id now : ℕ) : Type 0 where
  pub running : job.status ≡ JobStatus.processing
  pub attempt : job.attempt_id ≡ some attempt_id
  pub lease : (t : ℕ) × (job.lease_expires_at ≡ some t) × (now < t)

ends_later :
    (lease : Option ℕ) (now : ℕ)
    → lease_is_over lease now ≡ false
    → (t : ℕ) × (lease ≡ some t) × (now < t)
ends_later none now h = cc
ends_later (some t) now h = (t, refl, ground arith)

verify_sound :
    (job : Job) (attempt_id now : ℕ) (allow : Bool)
    → verify_active_attempt job attempt_id allow now ≡ ok processing
    → Owns job attempt_id now
unfolding verify_active_attempt
verify_sound job attempt_id now allow h = record {
  running = ground arith;
  attempt = ground arith;
  lease = ends_later job.lease_expires_at now (ground arith);
}

verify_complete :
    (job : Job) (attempt_id now : ℕ) (allow : Bool)
    → Owns job attempt_id now
    → verify_active_attempt job attempt_id allow now ≡ ok processing
unfolding verify_active_attempt
verify_complete job attempt_id now allow o = ground arith

pub verify_active_attempt_iff :
    (job : Job) (attempt_id now : ℕ) (allow : Bool)
    → (verify_active_attempt job attempt_id allow now ≡ ok processing) ↔ Owns job attempt_id now
verify_active_attempt_iff job attempt_id now allow =
    (verify_sound job attempt_id now allow, verify_complete job attempt_id now allow)
