-- ===== src/Worker/Takes.antt =====
-- backend/app/worker_api.py: what a claim that finds a job leaves in the rows.
use race_frame.Prelude.{
  ◌≡◌, refl, sym, Bool, true, Option, none, some, All, All-map, some-injective,
}
use race_frame.Worker.Job.{Job, Db, same_row}
use race_frame.Worker.Session.{Row, Session, live_of, open_session}
use race_frame.Worker.Rows.{All-mark, saved-rows}
use race_frame.Worker.Claim.{ClaimRequest, Env, claimed, take_job, claim_job}

pub take_job-eq-some :
    (env : Env) (found : Option Job) (s : Session) (job' : Job)
    → (take_job env found s).1 ≡ some job'
    → (job : Job) × (found ≡ some job) × (job' ≡ claimed env job)
unfolding take_job
take_job-eq-some env none s job' e = cc
take_job-eq-some env (some job) s job' e = (job, refl, sym (some-injective _ _ e))

pub claimed-same :
    (env : Env) (job mine : Job) → same_row (claimed env job) mine ≡ same_row job mine
unfolding claimed
claimed-same env job mine = refl

-- After the commit of a claim every row with the key of the claimed job is that job.
written :
    (env : Env) (job : Job) (s : Session)
    → All
        (λ row. same_row row (claimed env job) ≡ true → row ≡ claimed env job)
        (take_job env (some job) s).0.durable.jobs
unfolding take_job
written env job s =
    let Written =
      λ (row : Row). same_row row.live (claimed env job) ≡ true → row.live ≡ claimed env job in
    All-map _ live_of _
      (All-mark Written (λ row k. k) (claimed env job) _ (saved-rows (claimed env job) s.rows))

take_job-writes :
    (env : Env) (found : Option Job) (s : Session) (job' : Job)
    → (take_job env found s).1 ≡ some job'
    → All (λ job. same_row job job' ≡ true → job ≡ job') (take_job env found s).0.durable.jobs
take_job-writes env found s job' e =
    let (job, is_found, is) = take_job-eq-some env found s job' e in
    rw (is, is_found) (written env job s)

-- After a claim is committed, the row with the key of the claimed job holds just its values.
pub claim_job-writes :
    (env : Env) (r : ClaimRequest) (autoflush : Bool) (db : Db) (job : Job)
    → (claim_job env r (open_session autoflush db)).1 ≡ some job
    → All
        (λ row. same_row row job ≡ true → row ≡ job)
        (claim_job env r (open_session autoflush db)).0.durable.jobs
unfolding claim_job
claim_job-writes env r autoflush db job e = take_job-writes env _ _ job e

pub claim_job-claims :
    (env : Env) (r : ClaimRequest) (autoflush : Bool) (db : Db) (job : Job)
    → (claim_job env r (open_session autoflush db)).1 ≡ some job
    → (found : Job) × (job ≡ claimed env found)
unfolding claim_job
claim_job-claims env r autoflush db job e =
    let (found, _, is) = take_job-eq-some env _ _ job e in (found, is)
