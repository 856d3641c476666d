-- ===== src/Deletion/Run.antt =====
-- backend/app/maintenance.py: a run of `process_object_deletions`.
use race_frame.Prelude.{
  ℕ, zero, suc, ◌+◌, min, max, Bool, not, ◌&&◌, any, List, [], ◌∷◌, map, Option, none, some,
  if◌then◌else◌, keep, take, order_by, is_empty,
}
use race_frame.Matching.Token.{Text}
use race_frame.Deletion.Task.{Task, World, is_processing, without_object}
use race_frame.Deletion.Outbox.{
  give_up, is_due, claim_task, has_id, assign, get_task, same_attempt, delete_failed,
  delete_succeeded,
}

-- The clock at the start and when a task ends, the identifiers that are drawn, the rows that others have
-- locked, what the storage answers for a key, and what other processes do before a step of the run.
pub record Env : Type 0 where
  pub now : ℕ
  pub ended_at : ℕ → ℕ
  pub uuid4 : ℕ → ℕ
  pub locked : ℕ → Bool
  pub storage_error : Text → Option Text
  pub others : ℕ → World → World
  pub deletion_retry_batch_size : ℕ

abbrev limit_or : Option ℕ → ℕ → ℕ
limit_or none size = size
limit_or (some zero) size = size
limit_or (some (suc n)) size = suc n

abbrev pub batch_size : Env → Option ℕ → ℕ
batch_size env limit = max 1 (min (limit_or limit env.deletion_retry_batch_size) 1_000)

abbrev pub removed : Text → Option Text → List Text → List Text
removed key none objects = without_object key objects
removed key (some error) objects = objects

-- `delete_object`: its exception if it has one, and the bucket.
unfoldable pub delete_object : Env → Text → List Text → Option Text × List Text
delete_object env key objects =
    if is_empty key
    then (none, objects)
    else (env.storage_error key, removed key (env.storage_error key) objects)

-- The object of the row is written back.
abbrev put_task : ℕ → Task → World → World
put_task id task w = record w { tasks = assign id (λ _. task) w.tasks }

abbrev pub Counts : Type 0
Counts = ℕ × ℕ

-- The task after the call of the storage, with the counts of the run.
unfoldable pub end_task : Env → Task → Option Text × List Text → World → Counts → World × Counts
unfolding delete_failed delete_succeeded assign
end_task env task (none, objects) w (completed, failed) = (
  put_task task.id (delete_succeeded (env.ended_at task.id) task)
      (record { tasks = w.tasks; objects = objects }),
  (completed + 1, failed),
)
end_task env task (some error, objects) w (completed, failed) = (
  put_task task.id (delete_failed (env.ended_at task.id) error task)
      (record { tasks = w.tasks; objects = objects }),
  (completed, failed + 1),
)

abbrev pub is_ours : ℕ → Task → Bool
is_ours expected_attempt_id task =
    is_processing task.status && same_attempt task.attempt_id expected_attempt_id

unfoldable pub finish_found : Env → ℕ → Option Task → World → Counts → World × Counts
unfolding end_task delete_object
finish_found env expected_attempt_id none w counts = (w, counts)
finish_found env expected_attempt_id (some task) w counts =
    if is_ours expected_attempt_id task
    then end_task env task (delete_object env task.object_key w.objects) w counts
    else (w, counts)

-- The loop over the attempts, by task and attempt.
unfoldable pub finish_all : Env → ℕ → List (ℕ × ℕ) → World → Counts → World × Counts
unfolding get_task finish_found
finish_all env step [] w counts = (w, counts)
finish_all env step ((task_id, expected_attempt_id) ∷ attempts) w counts =
    let before = env.others step w in
    let (w', counts') =
      finish_found env expected_attempt_id (get_task task_id before.tasks) before counts in
    finish_all env (step + 1) attempts w' counts'

unfoldable pub due_tasks : Env → Option ℕ → List Task → List Task
unfolding take order_by keep is_due
due_tasks env limit tasks = take (batch_size env limit) (
    order_by (λ (task : Task). task.created_at)
      (keep (λ task. not (env.locked task.id) && is_due env.now task) tasks))

-- A row is claimed when it is due and in the batch.
abbrev pub is_claimed : Env → List Task → Task → Bool
is_claimed env due task = is_due env.now task && any (has_id task.id) due

unfoldable pub claim_all : Env → List Task → List Task → List Task
unfolding claim_task is_due
claim_all env due tasks =
    map (λ task. if is_claimed env due task then claim_task env.now env.uuid4 task else task) tasks

unfoldable pub process_object_deletions : Env → Option ℕ → World → World × Counts
unfolding give_up due_tasks claim_all finish_all
process_object_deletions env limit w =
    let swept = env.others 0 (record w { tasks = map (give_up env.now) w.tasks }) in
    let due = due_tasks env limit swept.tasks in
    finish_all env 1 (map (λ (task : Task). (task.id, env.uuid4 task.id)) due)
      (record swept { tasks = claim_all env due swept.tasks }) (0, 0)
