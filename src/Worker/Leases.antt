-- ===== src/Worker/Leases.antt =====
-- backend/app/worker_api.py: a claimed job stays with its attempt until the lease ends.
use race_frame.Prelude.{
  ℕ, ◌+◌, ◌<◌, ◌≡◌, ◌≢◌, refl, sym, subst, Bool, true, false, List, [], ◌∷◌, inl, inr, some, arith,
  All, All-map, All-mono, All-take, All-order_by, All-head, Bool-cases,
}
use race_frame.Http.{http}
use race_frame.Worker.Attempt.{verify_active_attempt}
use race_frame.Worker.Job.{seconds, worker_lease_seconds, Job, JobStatus, Db, same_row}
use race_frame.Worker.Session.{Row, Session, loaded, flush_row, open_session}
use race_frame.Worker.Rows.{All-before_query, All-sync, All-assign_rows}
use race_frame.Worker.Invariant.{All-select}
use race_frame.Worker.Claim.{
  ClaimRequest, Env, created, dead_letter, exhausted, claimed, is_claimable, is_exhausted,
  is_available, reap_one, reap_all, exhausted_jobs, reap_exhausted_jobs, next_job, claim_job,
}
use race_frame.Worker.Takes.{take_job-eq-some, claimed-same, claim_job-writes, claim_job-claims}

same_row_trans : (a b c : Job) → same_row a b ≡ true → same_row a c ≡ true → same_row b c ≡ true
same_row_trans a b c h k = ground arith

-- A row that is held: it is processing under a lease that ends at `t`.
abbrev pub IsHeld : ℕ → Job → Type 0
IsHeld t job = (job.status ≡ JobStatus.processing) × (job.lease_expires_at ≡ some t)

module _ (mine : Job) (t : ℕ) where
  abbrev Row-IsHeld : Row → Type 0
  Row-IsHeld row = same_row row.live mine ≡ true → IsHeld t row.stored × IsHeld t row.live

  held-unavailable : (now : ℕ) (job : Job) → now < t → IsHeld t job → is_available now job ≡ false
  unfolding is_available
  held-unavailable now job h held = ground arith

  exhausted-is-other :
      (r : ClaimRequest) (now : ℕ) (row : Row)
      → now < t
      → Row-IsHeld row
      → is_exhausted r now row.stored ≡ true
      → same_row row.live mine ≡ false
  unfolding is_exhausted
  exhausted-is-other r now row h k e = elim (Bool-cases (same_row row.live mine)) [
    | inl same ↦ absurd (ground (arith, held-unavailable now row.stored h (k same).0))
    | inr other ↦ other
  ]

  claimable-is-other :
      (r : ClaimRequest) (now : ℕ) (row : Row)
      → now < t
      → Row-IsHeld row
      → is_claimable r now row.stored ≡ true
      → same_row row.live mine ≡ false
  unfolding is_claimable
  claimable-is-other r now row h k e = elim (Bool-cases (same_row row.live mine)) [
    | inl same ↦ absurd (ground (arith, held-unavailable now row.stored h (k same).0))
    | inr other ↦ other
  ]

  exhausted_jobs-are-others :
      (env : Env) (r : ClaimRequest) (s : Session)
      → env.reap_now < t
      → All Row-IsHeld s.rows
      → All (λ job. same_row job mine ≡ false) (exhausted_jobs env r s)
  unfolding exhausted_jobs
  exhausted_jobs-are-others env r s h k =
      let Other = λ (job : Job). same_row job mine ≡ false in
      All-take Other 50 _ (
        All-order_by Other created _ (
          All-select Row-IsHeld Other (is_exhausted r env.reap_now) s
            (λ row held e. exhausted-is-other r env.reap_now row h held e) k))

  flush-IsHeld : (row : Row) → Row-IsHeld row → Row-IsHeld (flush_row row)
  flush-IsHeld row k e = ((k e).1, (k e).1)

  reap_all-IsHeld :
      (env : Env) (jobs : List Job) (s : Session)
      → All (λ job. same_row job mine ≡ false) jobs
      → All Row-IsHeld s.rows
      → All Row-IsHeld (reap_all env jobs s).rows
  unfolding reap_all reap_one exhausted dead_letter
  reap_all-IsHeld env [] s o h = h
  reap_all-IsHeld env (job ∷ jobs) s (o, os) h = reap_all-IsHeld env jobs _ os (
      All-sync Row-IsHeld flush-IsHeld env.texts _ _ _
        (All-assign_rows Row-IsHeld (exhausted env) job s.rows touched h))
    where
      touched :
          (row : Row)
          → Row-IsHeld row
          → same_row row.live job ≡ true
          → Row-IsHeld (record row { live = exhausted env row.live })
      touched row k e same = cc (same_row_trans row.live job mine e same)

  reap-IsHeld :
      (env : Env) (r : ClaimRequest) (s : Session)
      → env.reap_now < t
      → All Row-IsHeld s.rows
      → All Row-IsHeld (reap_exhausted_jobs env r s).rows
  unfolding reap_exhausted_jobs
  reap-IsHeld env r s h k =
      let ready = All-before_query Row-IsHeld flush-IsHeld s k in
      reap_all-IsHeld env _ _ (exhausted_jobs-are-others env r _ h ready) ready

  next_job-is-other :
      (env : Env) (r : ClaimRequest) (s : Session) (job : Job)
      → env.claim_now < t
      → All Row-IsHeld s.rows
      → next_job env r s ≡ some job
      → same_row job mine ≡ false
  unfolding next_job
  next_job-is-other env r s job h k e =
      let Other = λ (job : Job). same_row job mine ≡ false in
      All-head Other _
        (All-order_by Other created _ (
          All-select Row-IsHeld Other (is_claimable r env.claim_now) s
            (λ row held c. claimable-is-other r env.claim_now row h held c) k))
        e

  claim_job-is-other :
      (env : Env) (r : ClaimRequest) (autoflush : Bool) (db : Db) (job : Job)
      → env.reap_now < t
      → env.claim_now < t
      → All (λ job. same_row job mine ≡ true → IsHeld t job) db.jobs
      → (claim_job env r (open_session autoflush db)).1 ≡ some job
      → same_row job mine ≡ false
  unfolding claim_job
  claim_job-is-other env r autoflush db job hr hc held e =
      let (found, chosen, is) = take_job-eq-some env _ _ job e in
      let opened =
        All-map Row-IsHeld loaded db.jobs (All-mono db.jobs (λ j k same. (k same, k same)) held) in
      let ready = All-before_query Row-IsHeld flush-IsHeld _ (reap-IsHeld env r _ hr opened) in
      rw (is, claimed-same env found) (next_job-is-other env r _ found hc ready chosen)

claimed-IsHeld :
    (env : Env) (job : Job)
    → IsHeld (env.claim_now + seconds (worker_lease_seconds env.settings)) (claimed env job)
unfolding claimed
claimed-IsHeld env job = (refl, refl)

claim_job-IsHeld :
    (env : Env) (r : ClaimRequest) (autoflush : Bool) (db : Db) (job : Job)
    → (claim_job env r (open_session autoflush db)).1 ≡ some job
    → IsHeld (env.claim_now + seconds (worker_lease_seconds env.settings)) job
unfolding claim_job
claim_job-IsHeld env r autoflush db job e =
    let (found, chosen, is) = take_job-eq-some env _ _ job e in rw is (claimed-IsHeld env found)

-- After a claim has returned a job, a claim on the committed rows, whatever it asks for, that reads
-- the clock before the lease of the first ends does not return that job again.
pub claim_job-exclusive :
    (env later : Env) (r r' : ClaimRequest) (autoflush : Bool) (db : Db) (job job' : Job)
    → (claim_job env r (open_session autoflush db)).1 ≡ some job
    → later.reap_now < env.claim_now + seconds (worker_lease_seconds env.settings)
    → later.claim_now < env.claim_now + seconds (worker_lease_seconds env.settings)
    → (claim_job later r'
        (open_session autoflush (claim_job env r (open_session autoflush db)).0.durable)).1
      ≡ some job'
    → same_row job' job ≡ false
claim_job-exclusive env later r r' autoflush db job job' e hr hc e' =
    let held = claim_job-IsHeld env r autoflush db job e in
    claim_job-is-other job _ later r' autoflush _ job' hr hc
      (All-mono _ (λ row k same. rw (k same) held) (claim_job-writes env r autoflush db job e)) e'

refuses-other :
    (env : Env) (job : Job) (attempt_id now : ℕ) (allow : Bool)
    → attempt_id ≢ env.uuid4
    → verify_active_attempt (claimed env job) attempt_id allow now
      ≡ http 409 "The job is not owned by this worker attempt."
unfolding claimed verify_active_attempt
refuses-other env job attempt_id now allow h = ground arith

-- After a claim is committed, the row with the key of the claimed job refuses every attempt but the
-- new one, at any time, so a worker whose lease was taken over cannot report on the job.
pub claim_job-fences :
    (env : Env) (r : ClaimRequest) (autoflush : Bool) (db : Db) (job : Job) (attempt_id now : ℕ)
    (allow : Bool)
    → (claim_job env r (open_session autoflush db)).1 ≡ some job
    → attempt_id ≢ env.uuid4
    → All
        (λ row.
          same_row row job ≡ true
          → verify_active_attempt row attempt_id allow now
            ≡ http 409 "The job is not owned by this worker attempt.")
        (claim_job env r (open_session autoflush db)).0.durable.jobs
claim_job-fences env r autoflush db job attempt_id now allow e ne =
    All-mono _
      (λ row k same.
        subst
          (λ (j : Job).
            verify_active_attempt j attempt_id allow now
            ≡ http 409 "The job is not owned by this worker attempt.")
          (sym (k same)) (refused))
      (claim_job-writes env r autoflush db job e)
  where
    refused :
        verify_active_attempt job attempt_id allow now
        ≡ http 409 "The job is not owned by this worker attempt."
    refused =
        let (found, is) = claim_job-claims env r autoflush db job e in
        rw is (refuses-other env found attempt_id now allow ne)
