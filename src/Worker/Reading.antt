-- ===== src/Worker/Reading.antt =====
-- What the queries of a handler see of the row that the handler has loaded.
use race_frame.Prelude.{
  ℕ, ◌≡◌, refl, ap, subst, Bool, true, false, ◌&&◌, ◌==◌, List, [], ◌∷◌, map, inl, inr, some, arith,
  Bool-cases, keep, all, some-injective,
}
use race_frame.Worker.Job.{Job, Model, same_row, same_model, is_terminal}
use race_frame.Worker.Session.{Row, Session, live_of, stored_of, loaded, flush_row, assign_rows}
use race_frame.Worker.Parents.{Fallbacks, sync_terminal_parent_state}
use race_frame.Worker.Report.{find_job}

-- A flush changes no object.
pub live-flush : (rows : List Row) → map live_of (map flush_row rows) ≡ map live_of rows
live-flush [] = refl
live-flush (row ∷ rows) = ap (◌∷◌ row.live) (live-flush rows)

pub stored-loaded : (jobs : List Job) → map stored_of (map loaded jobs) ≡ jobs
stored-loaded [] = refl
stored-loaded (job ∷ jobs) = ap (◌∷◌ job) (stored-loaded jobs)

pub live-loaded : (jobs : List Job) → map live_of (map loaded jobs) ≡ jobs
live-loaded [] = refl
live-loaded (job ∷ jobs) = ap (◌∷◌ job) (live-loaded jobs)

-- An assignment changes no flushed row.
pub stored-assign_rows :
    (f : Job → Job) (job : Job) (rows : List Row)
    → map stored_of (assign_rows f job rows) ≡ map stored_of rows
unfolding assign_rows
stored-assign_rows f job [] = refl
stored-assign_rows f job (row ∷ rows) = elim (Bool-cases (same_row row.live job)) [
  | inl e ↦ rw e (ap (◌∷◌ row.stored) (stored-assign_rows f job rows))
  | inr e ↦ rw e (ap (◌∷◌ row.stored) (stored-assign_rows f job rows))
]

-- The parents' writes change no object of a job.
pub live-sync :
    (texts : Fallbacks) (now : ℕ) (job : Job) (s : Session)
    → map live_of (sync_terminal_parent_state texts now job s).rows ≡ map live_of s.rows
unfolding sync_terminal_parent_state
live-sync texts now job s = ground (arith, live-flush s.rows)

pub find_job-key :
    (model : Model) (job_id : ℕ) (jobs : List Job) {job : Job}
    → find_job model job_id jobs ≡ some job
    → (job.id == job_id && same_model job.model model) ≡ true
unfolding find_job
find_job-key model job_id [] e = cc
find_job-key model job_id (row ∷ rows) {job} e =
    elim (Bool-cases (row.id == job_id && same_model row.model model)) [
      | inl hit ↦
          subst (λ (j : Job). (j.id == job_id && same_model j.model model) ≡ true)
            (some-injective row job (rw hit at e)) hit
      | inr miss ↦ find_job-key model job_id rows (rw miss at e)
    ]

-- The object that was saved is found under its key.
pub find_job-saved :
    (model : Model) (job_id : ℕ) (job' : Job) (rows : List Row) {job : Job}
    → (job'.id == job_id && same_model job'.model model) ≡ true
    → find_job model job_id (map live_of rows) ≡ some job
    → find_job model job_id (map live_of (assign_rows (λ _. job') job' rows)) ≡ some job'
unfolding find_job assign_rows
find_job-saved model job_id job' [] k e = cc
find_job-saved model job_id job' (row ∷ rows) {job} k e =
    elim (Bool-cases (row.live.id == job_id && same_model row.live.model model)) [
      | inl hit ↦ ground arith
      | inr miss ↦ ground (arith, find_job-saved model job_id job' rows k (rw miss at e))
    ]

-- While the table has a row of the query that has not ended, the query's statuses are not all done.
pub statuses-not_done :
    (condition : Job → Bool) (model : Model) (job_id : ℕ) (jobs : List Job) {job : Job}
    → find_job model job_id jobs ≡ some job
    → condition job ≡ true
    → is_terminal job.status ≡ false
    → all is_terminal (map (λ (row : Job). row.status) (keep condition jobs)) ≡ false
unfolding find_job keep
statuses-not_done condition model job_id [] e c t = cc
statuses-not_done condition model job_id (row ∷ rows) {job} e c t =
    elim (Bool-cases (row.id == job_id && same_model row.model model)) [
      | inl hit ↦ ground arith
      | inr miss ↦ ground (arith, statuses-not_done condition model job_id rows (rw miss at e) c t)
    ]
