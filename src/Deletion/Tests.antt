-- ===== src/Deletion/Tests.antt =====
-- Runs of the outbox as in backend/tests/test_security_and_lifecycle.py.
use race_frame.Prelude.{
  arith, codes, ℕ, ◌+◌, if◌then◌else◌, ◌≡◌, refl, true, false, [], ◌∷◌, map, none, some, keep, take,
  order_by, insert_by,
}
use race_frame.Matching.Token.{Text, text_eq}
use race_frame.Deletion.Task.{queued, completed, Task, World, without_object}
use race_frame.Deletion.Outbox.{
  upsert_task, enqueue_object_deletion, give_up, is_due, claim_task, assign, get_task,
  delete_failed, delete_succeeded,
}
use race_frame.Deletion.Run.{
  Env, delete_object, end_task, finish_found, finish_all, due_tasks, claim_all,
  process_object_deletions,
}
use race_frame.Deletion.Shape.{AllSound}
use race_frame.Deletion.Purge.{
  FaceSearch, expired, enqueue_images, enqueue_searches, purge_expired_face_searches, AllImages,
  waits_in, purge_expired_face_searches-Waits,
}

-- The storage fails for the key "b".
abbrev env : Env
env = record {
  now = 1_000_000;
  ended_at = λ id. 2_000_000;
  uuid4 = λ id. id + 100;
  locked = λ id. false;
  storage_error = λ key. if text_eq key (codes "b") then some (codes "RuntimeError") else none;
  others = λ step w. w;
  deletion_retry_batch_size = 100;
}

abbrev bucket : World
bucket = record { tasks = []; objects = codes "a" ∷ codes "b" ∷ codes "c" ∷ [] }

abbrev waiting : ℕ → Text → Task
waiting id object_key = record {
  id = id;
  object_key = object_key;
  status = queued;
  attempt_count = 0;
  max_attempts = 10;
  attempt_id = none;
  retry_at = none;
  claimed_at = none;
  lease_expires_at = none;
  last_error = none;
  created_at = id;
  updated_at = id;
  completed_at = none;
  dead_lettered_at = none;
}

abbrev world : World
world = record {
  tasks = waiting 1 (codes "a") ∷ waiting 2 (codes "b") ∷ [];
  objects = bucket.objects;
}

program : Unit {0}
unfolding upsert_task enqueue_object_deletion give_up is_due claim_task assign get_task
    delete_failed delete_succeeded delete_object end_task finish_found finish_all due_tasks
    claim_all process_object_deletions without_object keep take order_by insert_by
program = tt

statuses_after_run :
    map (λ (t : Task). t.status) (process_object_deletions env none world).0.tasks
    ≡ completed ∷ queued ∷ []
unfolding program
statuses_after_run = refl

counts_of_run : (process_object_deletions env none world).1 ≡ (1, 1)
unfolding program
counts_of_run = refl

objects_after_run : (process_object_deletions env none world).0.objects ≡ codes "b" ∷ codes "c" ∷ []
unfolding program
objects_after_run = refl

world-AllSound : AllSound world
world-AllSound = (
  refl,
  ((omega arith, (refl, refl, omega arith)), ((omega arith, (refl, refl, omega arith)), tt)),
)

abbrev old_search : FaceSearch
old_search = record { id = 4; expires_at = 2; images = codes "c" ∷ codes "a" ∷ [] }

abbrev new_search : FaceSearch
new_search = record { id = 5; expires_at = 90; images = codes "d" ∷ [] }

purge_program : Unit {0}
unfolding program expired enqueue_images enqueue_searches purge_expired_face_searches
purge_program = tt

purged :
    (purge_expired_face_searches 5
      (λ id. false)
      (λ key. 8)
      500
      (old_search ∷ new_search ∷ [])
      world).0
    ≡ new_search ∷ []
unfolding purge_program
purged = refl

purge_expired_face_searches-Waits_example :
    AllSound
      (purge_expired_face_searches 5
        (λ id. false)
        (λ key. 8)
        500
        (old_search ∷ new_search ∷ [])
        world).1
    × AllImages 5
        (λ id. false)
        (λ key. 8)
        (λ key.
          waits_in 5
            (λ id. false)
            (λ key. 8)
            (purge_expired_face_searches 5
              (λ id. false)
              (λ key. 8)
              500
              (old_search ∷ new_search ∷ [])
              world).1
            key
          ≡ true)
        (expired 5 (λ id. false) (λ key. 8) 500 (old_search ∷ new_search ∷ []))
unfolding purge_program
purge_expired_face_searches-Waits_example =
    purge_expired_face_searches-Waits 5 (λ id. false) (λ key. 8) 500 (old_search ∷ new_search ∷ [])
      world ((refl, (refl, tt)), tt) world-AllSound
