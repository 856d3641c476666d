-- ===== src/Deletion/Task.antt =====
-- backend/app/models.py: ObjectDeletionTask, and the storage it is about. Moments are in microseconds.
use race_frame.Prelude.{ℕ, ◌*◌, Bool, true, false, List, [], ◌∷◌, Option, if◌then◌else◌}
use race_frame.Matching.Token.{Text, text_eq}

pub data TaskStatus : Type 0 where
  queued processing completed dead_lettered : TaskStatus

pub record Task : Type 0 where
  pub id : ℕ
  pub object_key : Text
  pub status : TaskStatus
  pub attempt_count : ℕ
  pub max_attempts : ℕ
  pub attempt_id : Option ℕ
  pub retry_at : Option ℕ
  pub claimed_at : Option ℕ
  pub lease_expires_at : Option ℕ
  pub last_error : Option Text
  pub created_at : ℕ
  pub updated_at : ℕ
  pub completed_at : Option ℕ
  pub dead_lettered_at : Option ℕ

-- The table, and the keys of the objects in the bucket.
pub record World : Type 0 where
  pub tasks : List Task
  pub objects : List Text

abbrev pub is_queued : TaskStatus → Bool
is_queued queued = true
is_queued _ = false

abbrev pub is_processing : TaskStatus → Bool
is_processing processing = true
is_processing _ = false

abbrev pub seconds : ℕ → ℕ
seconds n = n * 1_000_000

-- The bucket without an object.
unfoldable pub without_object : Text → List Text → List Text
without_object key [] = []
without_object key (object ∷ objects) =
    if text_eq key object then without_object key objects else object ∷ without_object key objects
