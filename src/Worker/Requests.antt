-- ===== src/Worker/Requests.antt =====
-- What a request does to the committed rows, whichever way its handler ends.
use race_frame.Prelude.{
  ℕ, ◌≡◌, subst, some-injective, refl, Bool, List, [], ◌∷◌, map, inl, inr, some, arith, All,
  All-map, Bool-cases, Option-cases, ◌==◌, ◌&&◌,
}
use race_frame.Http.{Result, ok, raise}
use race_frame.Worker.Job.{Job, JobStatus, Model, Db, same_model}
use race_frame.Worker.Session.{
  Row, Session, live_of, loaded, open_session, commit, request, respond, save,
}
use race_frame.Worker.Invariant.{Shape, IsWellFormed, Db-IsWellFormed, save-live}
use race_frame.Worker.Ownership.{Owns}
use race_frame.Worker.Report.{find_job, load_job}

pub request_keeps {ℓ} :
    {A : Type ℓ} (P : Db → Type 0) (autoflush : Bool) (handler : Session → Result (Session × A))
    (db : Db)
    → P db
    → ((s : Session) (a : A) → handler (open_session autoflush db) ≡ ok (s, a) → P s.durable)
    → P (request autoflush handler db).0
request_keeps {A = A} P autoflush handler db h k = go (handler (open_session autoflush db)) refl
  where
    go : (r : Result (Session × A)) → handler (open_session autoflush db) ≡ r → P (respond db r).0
    go (ok (s, a)) e = k s a e
    go (raise x) e = h

All-find_job :
    (P : Job → Type 0) (model : Model) (job_id : ℕ) (jobs : List Job) {job : Job}
    → All P jobs
    → find_job model job_id jobs ≡ some job
    → P job
unfolding find_job
All-find_job P model job_id [] h e = cc
All-find_job P model job_id (row ∷ rows) {job} (p, h) e =
    elim (Bool-cases (row.id == job_id && same_model row.model model)) [
      | inl hit ↦ subst P (some-injective row job (rw hit at e)) p
      | inr miss ↦ All-find_job P model job_id rows h (rw miss at e)
    ]

pub load_job-eq-ok :
    (model : Model) (job_id : ℕ) (s : Session) {job : Job}
    → load_job model job_id s ≡ ok job
    → find_job model job_id (map live_of s.rows) ≡ some job
unfolding load_job
load_job-eq-ok model job_id s e = ground arith

-- The row that a handler works on is one of the committed rows.
pub All-load_job :
    (P : Job → Type 0) (model : Model) (job_id : ℕ) (s : Session) {job : Job}
    → All (λ (row : Row). P row.live) s.rows
    → load_job model job_id s ≡ ok job
    → P job
unfolding load_job
All-load_job P model job_id s h e =
    elim (Option-cases (find_job model job_id (map live_of s.rows))) [
      | inl miss ↦ absurd (ground arith)
      | inr (found, hit) ↦
          All-find_job P model job_id (map live_of s.rows) (All-map P live_of s.rows h)
            (ground arith)
    ]

-- A committed session whose last write was a well-formed row.
pub saved-IsWellFormed :
    (job : Job) (s : Session)
    → IsWellFormed job
    → All (λ (row : Row). IsWellFormed row.live) s.rows
    → All IsWellFormed (commit (save job s)).durable.jobs
saved-IsWellFormed job s v h =
    All-map IsWellFormed live_of _ (save-live IsWellFormed job s.rows v h)

pub owned-Shape :
    (job : Job) {attempt_id now : ℕ}
    → Owns job attempt_id now
    → IsWellFormed job
    → Shape JobStatus.processing job
owned-Shape job o v = subst (λ status. Shape status job) o.running v.1

pub opened-IsWellFormed :
    (autoflush : Bool) (db : Db)
    → Db-IsWellFormed db
    → All (λ (row : Row). IsWellFormed row.live) (open_session autoflush db).rows
opened-IsWellFormed autoflush db h = All-map (λ (row : Row). IsWellFormed row.live) loaded db.jobs h
