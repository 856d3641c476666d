-- ===== src/Worker/Invariant.antt =====
-- The shape of a job row: which columns are set in each status. Every operation of the control
-- plane keeps it.
use race_frame.Prelude.{
  ℕ, ◌≤◌, ◌<◌, ◌≡◌, ◌≢◌, refl, Bool, true, List, [], ◌∷◌, map, Option, none, some, arith, All,
  All-map, All-mono, All-keep, All-order_by, All-head,
}
use race_frame.Worker.Job.{Job, JobStatus, Db}
use race_frame.Worker.Session.{
  Row, Session, live_of, loaded, flush_row, open_session, before_query, assign_rows, select_jobs,
}
use race_frame.Worker.Rows.{All-before_query, All-sync, All-mark, All-assign_rows}
use race_frame.Worker.Claim.{
  ClaimRequest, Env, created, exhausted, claimed, is_claimable, reap_one, reap_all, exhausted_jobs,
  reap_exhausted_jobs, next_job, take_job, claim_job,
}

-- The columns of a row, by its status. Only a processing row has a lease, and it has an attempt;
-- only an ended row has an end; only a queued row waits.
abbrev pub Shape : JobStatus → Job → Type 0
Shape JobStatus.queued job =
    (job.lease_expires_at ≡ none) × (job.finished_at ≡ none) × (job.dead_lettered_at ≡ none)
Shape JobStatus.processing job =
    (job.lease_expires_at ≢ none)
    × (job.attempt_id ≢ none)
    × (job.retry_after ≡ none)
    × (job.finished_at ≡ none)
    × (job.dead_lettered_at ≡ none)
Shape JobStatus.completed job =
    (job.lease_expires_at ≡ none)
    × (job.retry_after ≡ none)
    × (job.finished_at ≢ none)
    × (job.dead_lettered_at ≡ none)
Shape JobStatus.failed job =
    (job.lease_expires_at ≡ none)
    × (job.retry_after ≡ none)
    × (job.finished_at ≢ none)
    × (job.dead_lettered_at ≡ none)
Shape JobStatus.dead_lettered job =
    (job.lease_expires_at ≡ none)
    × (job.retry_after ≡ none)
    × (job.finished_at ≢ none)
    × (job.dead_lettered_at ≢ none)

-- A row that no operation has spoilt: its attempts are within their bound, and it has its shape.
abbrev pub IsWellFormed : Job → Type 0
IsWellFormed job = (job.attempt_count ≤ job.max_attempts) × Shape job.status job

-- The pending object of a row counts the attempts as the row does, until a claim.
abbrev Row-IsSound : Row → Type 0
Row-IsSound row =
    IsWellFormed row.live
    × (row.stored.attempt_count ≡ row.live.attempt_count)
    × (row.stored.max_attempts ≡ row.live.max_attempts)

flush_row_sound : (row : Row) → Row-IsSound row → Row-IsSound (flush_row row)
flush_row_sound row h = (h.0, refl, refl)

exhausted_sound :
    (env : Env) (row : Row)
    → Row-IsSound row
    → Row-IsSound (record row { live = exhausted env row.live })
unfolding exhausted
exhausted_sound env row h = ((h.0.0, (refl, refl, cc, cc)), h.1, h.2)

reap_all_sound :
    (env : Env) (jobs : List Job) (s : Session)
    → All Row-IsSound s.rows
    → All Row-IsSound (reap_all env jobs s).rows
unfolding reap_all reap_one
reap_all_sound env [] s h = h
reap_all_sound env (job ∷ jobs) s h = reap_all_sound env jobs _ (
    All-sync Row-IsSound flush_row_sound env.texts _ _ _ (
      All-assign_rows Row-IsSound (exhausted env) job s.rows (λ row k _. exhausted_sound env row k)
        h))

reap_sound :
    (env : Env) (r : ClaimRequest) (s : Session)
    → All Row-IsSound s.rows
    → All Row-IsSound (reap_exhausted_jobs env r s).rows
unfolding reap_exhausted_jobs
reap_sound env r s h =
    reap_all_sound env (exhausted_jobs env r (before_query s)) _
      (All-before_query Row-IsSound flush_row_sound s h)

-- What is common to the jobs that a query returns.
pub All-select :
    (P : Row → Type 0) (Q : Job → Type 0) (condition : Job → Bool) (s : Session)
    → ((row : Row) → P row → condition row.stored ≡ true → Q row.live)
    → All P s.rows
    → All Q (select_jobs condition s)
unfolding select_jobs
All-select P Q condition s f h =
    All-map Q live_of _ (All-keep P (λ row. Q row.live) (λ row. condition row.stored) s.rows f h)

abbrev HasRoom : Job → Type 0
HasRoom job = job.attempt_count < job.max_attempts

claimable-HasRoom :
    (r : ClaimRequest) (now : ℕ) (job : Job) → is_claimable r now job ≡ true → HasRoom job
unfolding is_claimable
claimable-HasRoom r now job h = ground arith

next_job-HasRoom :
    (env : Env) (r : ClaimRequest) (s : Session) (job : Job)
    → All Row-IsSound s.rows
    → next_job env r s ≡ some job
    → HasRoom job
unfolding next_job
next_job-HasRoom env r s job h e =
    All-head HasRoom _
      (All-order_by HasRoom created _
        (All-select Row-IsSound HasRoom (is_claimable r env.claim_now) s has_room h))
      e
  where
    has_room :
        (row : Row)
        → Row-IsSound row
        → is_claimable r env.claim_now row.stored ≡ true
        → HasRoom row.live
    has_room row k c = omega (arith, claimable-HasRoom r env.claim_now row.stored c)

claimed-IsWellFormed : (env : Env) (job : Job) → HasRoom job → IsWellFormed (claimed env job)
unfolding claimed
claimed-IsWellFormed env job h = (omega arith, (cc, cc, refl, refl, refl))

-- A saved value stands in every row that it touches.
pub save-live :
    (P : Job → Type 0) (job : Job) (rows : List Row)
    → P job
    → All (λ (row : Row). P row.live) rows
    → All (λ (row : Row). P row.live) (assign_rows (λ _. job) job rows)
save-live P job rows p h =
    All-assign_rows (λ (row : Row). P row.live) (λ _. job) job rows (λ row _ _. p) h

take_job-IsWellFormed :
    (env : Env) (found : Option Job) (s : Session)
    → ((job : Job) → found ≡ some job → HasRoom job)
    → All (λ (row : Row). IsWellFormed row.live) s.rows
    → All IsWellFormed (take_job env found s).0.durable.jobs
unfolding take_job
take_job-IsWellFormed env none s f h = All-map IsWellFormed live_of s.rows h
take_job-IsWellFormed env (some job) s f h = All-map IsWellFormed live_of _ (
    All-mark (λ row. IsWellFormed row.live) (λ row k. k) (claimed env job) _
      (save-live IsWellFormed (claimed env job) s.rows (claimed-IsWellFormed env job (f job refl))
        h))

abbrev pub Db-IsWellFormed : Db → Type 0
Db-IsWellFormed db = All IsWellFormed db.jobs

opened_sound : (jobs : List Job) → All IsWellFormed jobs → All Row-IsSound (map loaded jobs)
opened_sound jobs h = All-map Row-IsSound loaded jobs (All-mono jobs (λ job k. (k, refl, refl)) h)

pub claim_job-IsWellFormed :
    (env : Env) (r : ClaimRequest) (autoflush : Bool) (db : Db)
    → Db-IsWellFormed db
    → Db-IsWellFormed (claim_job env r (open_session autoflush db)).0.durable
unfolding claim_job
claim_job-IsWellFormed env r autoflush db h =
    let sound =
      All-before_query Row-IsSound flush_row_sound _
        (reap_sound env r (open_session autoflush db) (opened_sound db.jobs h)) in
    take_job-IsWellFormed env _ _ (λ job e. next_job-HasRoom env r _ job sound e)
      (All-mono _ (λ row k. k.0) sound)
