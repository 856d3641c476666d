-- ===== src/Worker/Queue.antt =====
-- backend/app/worker_api.py: the order in which `_claim_job` serves the jobs, in the session of
-- backend/app/db.py.
use race_frame.Prelude.{
  ℕ, ◌≤◌, ◌≡◌, refl, sym, ◌∙◌, subst, Bool, true, false, List, [], ◌∷◌, map, inl, inr, Option, none,
  some, arith, All, All-map, All-of_keep, All-of_map, order_by-least, order_by-none, Option-cases,
}
use race_frame.Worker.Job.{Job, Db}
use race_frame.Worker.Session.{
  Row, Session, live_of, stored_of, loaded, open_session, session_local_autoflush, select_jobs,
  before_query,
}
use race_frame.Worker.Parents.{Fallbacks, sync_terminal_parent_state}
use race_frame.Worker.Reading.{stored-loaded, stored-assign_rows}
use race_frame.Worker.Rows.{All-assign_rows}
use race_frame.Worker.Claim.{
  ClaimRequest, Env, created, dead_letter, exhausted, claimed, is_claimable, reap_one, reap_all,
  reap_exhausted_jobs, next_job, take_job, claim_job,
}

-- A session that does not flush on its own, with the rows as they were committed.
abbrev IsUnflushed : List Job → Session → Type 0
IsUnflushed jobs s =
    (s.autoflush ≡ false)
    × (map stored_of s.rows ≡ jobs)
    × All (λ (row : Row). row.live.created_at ≡ row.stored.created_at) s.rows

sync-IsUnflushed :
    (texts : Fallbacks) (now : ℕ) (job : Job) (s : Session) (jobs : List Job)
    → IsUnflushed jobs s
    → IsUnflushed jobs (sync_terminal_parent_state texts now job s)
unfolding sync_terminal_parent_state
sync-IsUnflushed texts now job s jobs h = ground arith

reap_all-IsUnflushed :
    (env : Env) (found : List Job) (s : Session) (jobs : List Job)
    → IsUnflushed jobs s
    → IsUnflushed jobs (reap_all env found s)
unfolding reap_all reap_one exhausted dead_letter
reap_all-IsUnflushed env [] s jobs h = h
reap_all-IsUnflushed env (job ∷ found) s jobs (off, stored, dates) =
    reap_all-IsUnflushed env found _ jobs (
      sync-IsUnflushed env.texts _ _ _ jobs (
        off,
        stored-assign_rows (exhausted env) job s.rows ∙ stored,
        All-assign_rows (λ (row : Row). row.live.created_at ≡ row.stored.created_at) (exhausted env)
            job s.rows (λ row k _. k) dates,
      ))

query-IsUnflushed :
    (jobs : List Job) (s : Session) → IsUnflushed jobs s → IsUnflushed jobs (before_query s)
query-IsUnflushed jobs s h = ground arith

reap-IsUnflushed :
    (env : Env) (r : ClaimRequest) (s : Session) (jobs : List Job)
    → IsUnflushed jobs s
    → IsUnflushed jobs (reap_exhausted_jobs env r s)
unfolding reap_exhausted_jobs
reap-IsUnflushed env r s jobs h =
    reap_all-IsUnflushed env _ (before_query s) jobs (query-IsUnflushed jobs s h)

opened-IsUnflushed : (db : Db) → IsUnflushed db.jobs (open_session session_local_autoflush db)
opened-IsUnflushed db = (
  refl,
  stored-loaded db.jobs,
  All-map (λ (row : Row). row.live.created_at ≡ row.stored.created_at) loaded db.jobs
      (same db.jobs),
)
  where
    same : (jobs : List Job) → All (λ (job : Job). job.created_at ≡ job.created_at) jobs
    same [] = tt
    same (job ∷ jobs) = (refl, same jobs)

-- What holds of the objects of the rows that a query finds holds of the rows as committed.
on_stored :
    (P : ℕ → Type 0) (condition : Job → Bool) (rows : List Row)
    → All (λ (row : Row). row.live.created_at ≡ row.stored.created_at) rows
    → All (λ (row : Row). condition row.stored ≡ true → P row.live.created_at) rows
    → All (λ (job : Job). condition job ≡ true → P job.created_at) (map stored_of rows)
on_stored P condition [] dates h = tt
on_stored P condition (row ∷ rows) (same, dates) (p, h) =
    (λ c. subst P same (p c), on_stored P condition rows dates h)

selected :
    (P : ℕ → Type 0) (condition : Job → Bool) (s : Session)
    → All (λ (row : Row). row.live.created_at ≡ row.stored.created_at) s.rows
    → All (λ (job : Job). P job.created_at) (select_jobs condition s)
    → All (λ (job : Job). condition job ≡ true → P job.created_at) (map stored_of s.rows)
unfolding select_jobs
selected P condition s dates h = on_stored P condition s.rows dates (
    All-of_keep (λ (row : Row). P row.live.created_at) (λ row. condition (stored_of row)) s.rows
      (All-of_map (λ (job : Job). P job.created_at) live_of _ h))

next_job-least :
    (env : Env) (r : ClaimRequest) (s : Session) (job : Job) (jobs : List Job)
    → IsUnflushed jobs s
    → next_job env r s ≡ some job
    → All (λ row. is_claimable r env.claim_now row ≡ true → job.created_at ≤ row.created_at) jobs
unfolding next_job
next_job-least env r s job jobs (off, stored, dates) e = subst (All _) stored (
    selected (λ date. job.created_at ≤ date) (is_claimable r env.claim_now) s dates
      (order_by-least created _ job e))

next_job-none :
    (env : Env) (r : ClaimRequest) (s : Session) (jobs : List Job)
    → IsUnflushed jobs s
    → next_job env r s ≡ none
    → All (λ row. is_claimable r env.claim_now row ≡ true → ⊥) jobs
unfolding next_job
next_job-none env r s jobs (off, stored, dates) e = subst (All _) stored (
    selected (λ date. ⊥) (is_claimable r env.claim_now) s dates
      (subst (All _) (sym (order_by-none created _ e)) tt))

-- What a claim owes to the queue of committed jobs.
abbrev pub Serves : (Job → Bool) → Option Job → List Job → Type 0
Serves may none jobs = All (λ row. may row ≡ true → ⊥) jobs
Serves may (some job) jobs = All (λ row. may row ≡ true → job.created_at ≤ row.created_at) jobs

take_job-Serves :
    (env : Env) (found : Option Job) (s : Session) (may : Job → Bool) (jobs : List Job)
    → Serves may found jobs
    → Serves may (take_job env found s).1 jobs
unfolding take_job claimed
take_job-Serves env none s may jobs h = h
take_job-Serves env (some job) s may jobs h = h

next_job-Serves :
    (env : Env) (r : ClaimRequest) (s : Session) (jobs : List Job)
    → IsUnflushed jobs s
    → Serves (is_claimable r env.claim_now) (next_job env r s) jobs
next_job-Serves env r s jobs h = elim (Option-cases (next_job env r s)) [
  | inl e ↦ rw e (next_job-none env r s jobs h e)
  | inr (job, e) ↦ rw e (next_job-least env r s job jobs h e)
]

-- A claim returns a job no younger than any committed job that may be claimed, and returns none only
-- if no committed job may be: one of the model and type asked for, not locked, with an attempt left,
-- and queued and due or under a lease that has ended.
pub claim_job-Serves :
    (env : Env) (r : ClaimRequest) (db : Db)
    → Serves
        (is_claimable r env.claim_now)
        (claim_job env r (open_session session_local_autoflush db)).1
        db.jobs
unfolding claim_job
claim_job-Serves env r db =
    let ready = query-IsUnflushed db.jobs _ (
      reap-IsUnflushed env r (open_session session_local_autoflush db) db.jobs
        (opened-IsUnflushed db)) in
    take_job-Serves env _ _ _ db.jobs (next_job-Serves env r _ db.jobs ready)
