-- ===== src/Deletion/Outbox.antt =====
-- backend/app/maintenance.py: `enqueue_object_deletion` and `process_object_deletions`. Between the
-- commits of a run other processes may change the tables and the bucket: what they do is an argument,
-- as is whether a call of the storage fails.
use race_frame.Prelude.{
  codes, ℕ, ◌+◌, ◌^◌, min, Bool, false, ◌&&◌, ◌||◌, List, [], ◌∷◌, Option, none, some, leb, ltb,
  ◌==◌, if◌then◌else◌, take, null_or_le, is_empty,
}
use race_frame.Matching.Token.{Text, text_eq}
use race_frame.Deletion.Task.{
  queued, processing, completed, dead_lettered, Task, World, is_queued, is_processing, seconds,
}

module _ (now : ℕ) where
  abbrev pub new_task : ℕ → Text → Task
  new_task id object_key = record {
    id = id;
    object_key = object_key;
    status = queued;
    attempt_count = 0;
    max_attempts = 10;
    attempt_id = none;
    retry_at = none;
    claimed_at = none;
    lease_expires_at = none;
    last_error = none;
    created_at = now;
    updated_at = now;
    completed_at = none;
    dead_lettered_at = none;
  }

  abbrev pub requeue : Task → Task
  requeue task = record task {
    status = queued;
    attempt_count = 0;
    attempt_id = none;
    retry_at = none;
    claimed_at = none;
    lease_expires_at = none;
    last_error = none;
    completed_at = none;
    dead_lettered_at = none;
    updated_at = now;
  }

  -- `INSERT … ON CONFLICT (object_key) DO UPDATE`
  unfoldable pub upsert_task : ℕ → Text → List Task → List Task
  upsert_task id object_key [] = new_task id object_key ∷ []
  upsert_task id object_key (task ∷ tasks) =
      if text_eq task.object_key object_key
      then requeue task ∷ tasks
      else task ∷ upsert_task id object_key tasks

  unfoldable pub enqueue_object_deletion : ℕ → Option Text → World → World
  unfolding upsert_task
  enqueue_object_deletion id none w = w
  enqueue_object_deletion id (some object_key) w =
      if is_empty object_key then w else record w { tasks = upsert_task id object_key w.tasks }

  -- The first UPDATE: a lost lease with no attempt left.
  abbrev pub is_lost : Task → Bool
  is_lost task =
      is_processing task.status
      && (leb task.max_attempts task.attempt_count && null_or_le task.lease_expires_at now)

  unfoldable pub give_up : Task → Task
  give_up task =
      if is_lost task
      then record task {
        status = dead_lettered;
        dead_lettered_at = some now;
        lease_expires_at = none;
        attempt_id = none;
        retry_at = none;
        last_error = some (codes "Maximum object-deletion attempts exhausted after a lost lease.");
        updated_at = now;
      }
      else task

  unfoldable pub is_due : Task → Bool
  is_due task =
      (is_queued task.status || (is_processing task.status && null_or_le task.lease_expires_at now))
      && (ltb task.attempt_count task.max_attempts && null_or_le task.retry_at now)

  unfoldable pub claim_task : (ℕ → ℕ) → Task → Task
  claim_task uuid4 task = record task {
    status = processing;
    attempt_id = some (uuid4 task.id);
    claimed_at = some now;
    lease_expires_at = some (now + seconds 120);
    attempt_count = task.attempt_count + 1;
    updated_at = now;
  }

abbrev pub has_id : ℕ → Task → Bool
has_id id task = task.id == id

-- Attributes of the row with the id are assigned.
unfoldable pub assign : ℕ → (Task → Task) → List Task → List Task
assign id f [] = []
assign id f (task ∷ tasks) = (if has_id id task then f task else task) ∷ assign id f tasks

-- `session.get(ObjectDeletionTask, task_id)`
unfoldable pub get_task : ℕ → List Task → Option Task
get_task id [] = none
get_task id (task ∷ tasks) = if has_id id task then some task else get_task id tasks

abbrev pub same_attempt : Option ℕ → ℕ → Bool
same_attempt none expected = false
same_attempt (some attempt) expected = attempt == expected

-- The branch of the exception. Its text begins with the name of the exception's class.
unfoldable pub delete_failed : ℕ → Text → Task → Task
delete_failed now error task =
    let failed = record task {
      last_error = some (take 2_000 error);
      lease_expires_at = none;
      attempt_id = none;
      updated_at = now;
    } in
    if leb task.max_attempts task.attempt_count
    then record failed { status = dead_lettered; dead_lettered_at = some now; retry_at = none }
    else record failed {
      status = queued;
      retry_at = some (now + seconds (min 3_600 (2 ^ min task.attempt_count 10)));
    }

unfoldable pub delete_succeeded : ℕ → Task → Task
delete_succeeded now task = record task {
  status = completed;
  completed_at = some now;
  lease_expires_at = none;
  attempt_id = none;
  retry_at = none;
  last_error = none;
  updated_at = now;
}
