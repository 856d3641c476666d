-- ===== src/Worker/Session.antt =====
-- backend/app/db.py: the SQLAlchemy session that a handler works in. A query filters what was
-- flushed; the objects that it returns carry the pending changes; a commit makes them durable.
use race_frame.Prelude.{Bool, false, List, [], ◌∷◌, map, if◌then◌else◌, keep}
use race_frame.Http.{Result, ok, raise}
use race_frame.Worker.Job.{Job, JobStatus, Db, Parents, same_row}

-- A row as the table has it, and the object in memory, on which attributes are assigned.
pub record Row : Type 0 where
  pub stored : Job
  pub live : Job

-- `durable` is what is committed. No query reads the parents, so only their objects are kept.
pub record Session : Type 0 where
  pub autoflush : Bool
  pub durable : Db
  pub rows : List Row
  pub parents : Parents

-- `SessionLocal = sessionmaker(..., autoflush=False, ...)`
abbrev pub session_local_autoflush : Bool
session_local_autoflush = false

abbrev pub loaded : Job → Row
loaded job = record { stored = job; live = job }

abbrev pub live_of : Row → Job
live_of row = row.live

abbrev pub stored_of : Row → Job
stored_of row = row.stored

abbrev pub open_session : Bool → Db → Session
open_session autoflush db = record {
  autoflush = autoflush;
  durable = db;
  rows = map loaded db.jobs;
  parents = db.parents;
}

abbrev pub flush_row : Row → Row
flush_row row = loaded row.live

abbrev pub flush : Session → Session
flush s = record s { rows = map flush_row s.rows }

abbrev pub commit : Session → Session
commit s = record s {
  durable = record { jobs = map live_of s.rows; parents = s.parents };
  rows = map flush_row s.rows;
}

-- What a query does first.
abbrev pub before_query : Session → Session
before_query s = if s.autoflush then flush s else s

-- `select(model).where(...)`: the rows are tested as flushed, the objects are the live ones.
unfoldable pub select_jobs : (Job → Bool) → Session → List Job
select_jobs condition s = map live_of (keep (λ row. condition (stored_of row)) s.rows)

-- `select(model.status).where(...)` reads the flushed column.
unfoldable pub select_statuses : (Job → Bool) → Session → List JobStatus
select_statuses condition s =
    map (λ (job : Job). job.status) (keep condition (map stored_of s.rows))

unfoldable pub assign_rows : (Job → Job) → Job → List Row → List Row
assign_rows f job [] = []
assign_rows f job (row ∷ rows) =
    (if same_row row.live job then record row { live = f row.live } else row)
    ∷ assign_rows f job rows

-- Attributes of a loaded job's object are assigned.
abbrev pub assign : (Job → Job) → Job → Session → Session
assign f job s = record s { rows = assign_rows f job s.rows }

-- The object takes all the values of `job`.
abbrev pub save : Job → Session → Session
save job s = assign (λ _. job) job s

-- How a request ends: a handler that raises leaves its session unwritten, since `get_db` closes it.
abbrev pub respond {ℓ} : {A : Type ℓ} → Db → Result (Session × A) → Db × Result A
respond db (ok (s, a)) = (s.durable, ok a)
respond db (raise e) = (db, raise e)

abbrev pub request {ℓ} : {A : Type ℓ} → Bool → (Session → Result (Session × A)) → Db → Db × Result A
request autoflush handler db = respond db (handler (open_session autoflush db))
