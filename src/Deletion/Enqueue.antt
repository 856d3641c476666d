-- ===== src/Deletion/Enqueue.antt =====
-- backend/app/maintenance.py: what `enqueue_object_deletion` leaves in the table.
use race_frame.Prelude.{
  ℕ, ◌≡◌, refl, inl, inr, Bool, true, false, ◌&&◌, any, List, [], ◌∷◌, some, is_empty, All, arith,
  Bool-cases,
}
use race_frame.Matching.Token.{Text, text_eq, text_eq_refl}
use race_frame.Deletion.Task.{Task, World}
use race_frame.Deletion.Outbox.{upsert_task, enqueue_object_deletion, is_due}
use race_frame.Deletion.Shape.{AllSound, IsSound}

-- A task for the key that a run can take at once.
abbrev pub waits_for : ℕ → Text → Task → Bool
waits_for now object_key task = text_eq task.object_key object_key && is_due now task

upsert_task-IsSound :
    (objects : List Text) (now id : ℕ) (object_key : Text) (tasks : List Task)
    → All (IsSound objects) tasks
    → All (IsSound objects) (upsert_task now id object_key tasks)
unfolding upsert_task
upsert_task-IsSound objects now id object_key [] h = ((omega arith, (refl, refl, omega arith)), tt)
upsert_task-IsSound objects now id object_key (task ∷ tasks) ((positive, shape), h) =
    elim (Bool-cases (text_eq task.object_key object_key)) [
      | inl e ↦ rw e ((positive, (refl, refl, positive)), h)
      | inr e ↦ rw e ((positive, shape), upsert_task-IsSound objects now id object_key tasks h)
    ]

any-upsert_task :
    (objects : List Text) (now id : ℕ) (object_key : Text) (tasks : List Task)
    → All (IsSound objects) tasks
    → any (waits_for now object_key) (upsert_task now id object_key tasks) ≡ true
unfolding upsert_task is_due
any-upsert_task objects now id object_key [] h = rw (text_eq_refl object_key) refl
any-upsert_task objects now id object_key (task ∷ tasks) ((positive, shape), h) =
    elim (Bool-cases (text_eq task.object_key object_key)) [
      | inl e ↦ rw e rw e (ground arith)
      | inr e ↦ rw e rw e (any-upsert_task objects now id object_key tasks h)
    ]

-- Whatever became of earlier deletions of the key, once enqueued it has a task that a run can take at once,
-- and every task keeps the shape of its status.
pub enqueue_object_deletion-Waits :
    (now id : ℕ) (object_key : Text) (w : World)
    → is_empty object_key ≡ false
    → AllSound w
    → (any (waits_for now object_key) (enqueue_object_deletion now id (some object_key) w).tasks
        ≡ true)
      × AllSound (enqueue_object_deletion now id (some object_key) w)
unfolding enqueue_object_deletion
enqueue_object_deletion-Waits now id object_key w filled (no_empty, h) = rw filled (
  any-upsert_task w.objects now id object_key w.tasks h,
  (no_empty, upsert_task-IsSound w.objects now id object_key w.tasks h),
)
