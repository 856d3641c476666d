-- ===== src/Deletion/Shape.antt =====
-- backend/app/maintenance.py: the shape of a task, which each step of the outbox keeps.
use race_frame.Prelude.{
  ℕ, ◌≤◌, ◌<◌, ◌≡◌, ◌≢◌, refl, inl, inr, true, false, List, [], ◌∷◌, none, leb, is_empty, All,
  arith, Bool-cases,
}
use race_frame.Matching.Token.{Text, is_member}
use race_frame.Deletion.Task.{
  TaskStatus, queued, processing, completed, dead_lettered, Task, World, without_object,
}
use race_frame.Deletion.Outbox.{
  is_lost, give_up, is_due, claim_task, has_id, assign, delete_failed, delete_succeeded,
}

-- What a status promises: a waiting task has an attempt left, and no one owns it; one that is worked on
-- is owned under a lease; a completed one has no object any more; a dead one is owned by no one.
abbrev pub Shape : List Text → TaskStatus → Task → Type 0
Shape objects queued t =
    (t.attempt_id ≡ none) × (t.lease_expires_at ≡ none) × (t.attempt_count < t.max_attempts)
Shape objects processing t =
    (t.attempt_id ≢ none) × (t.lease_expires_at ≢ none) × (t.attempt_count ≤ t.max_attempts)
Shape objects completed t =
    (t.attempt_id ≡ none)
    × (t.lease_expires_at ≡ none)
    × (t.completed_at ≢ none)
    × (is_member t.object_key objects ≡ false)
Shape objects dead_lettered t =
    (t.attempt_id ≡ none) × (t.lease_expires_at ≡ none) × (t.dead_lettered_at ≢ none)

abbrev pub IsSound : List Text → Task → Type 0
IsSound objects t = (0 < t.max_attempts) × Shape objects t.status t

-- Each task has the shape of its status, and the bucket has no object with an empty key.
abbrev pub AllSound : World → Type 0
AllSound w = (is_member [] w.objects ≡ false) × All (IsSound w.objects) w.tasks

pub is_member-without_object :
    (s key : Text) (objects : List Text)
    → is_member s objects ≡ false
    → is_member s (without_object key objects) ≡ false
unfolding without_object
is_member-without_object s key [] h = refl
is_member-without_object s key (object ∷ objects) h =
    ground (arith, is_member-without_object s key objects)

pub is_member-gone :
    (key : Text) (objects : List Text) → is_member key (without_object key objects) ≡ false
unfolding without_object
is_member-gone key [] = refl
is_member-gone key (object ∷ objects) = ground (arith, is_member-gone key objects)

pub is_empty_sound : (s : Text) → is_empty s ≡ true → s ≡ []
is_empty_sound [] h = refl
is_empty_sound (_ ∷ _) h = cc

-- A bucket with fewer objects.
pub Shape-fewer :
    (key : Text) (objects : List Text) (status : TaskStatus) (t : Task)
    → Shape objects status t
    → Shape (without_object key objects) status t
Shape-fewer key objects queued t h = h
Shape-fewer key objects processing t h = h
Shape-fewer key objects completed t (a, l, c, gone) =
    (a, l, c, is_member-without_object t.object_key key objects gone)
Shape-fewer key objects dead_lettered t h = h

pub give_up-IsSound :
    (objects : List Text) (now : ℕ) (t : Task) → IsSound objects t → IsSound objects (give_up now t)
unfolding give_up
give_up-IsSound objects now t (positive, h) = elim (Bool-cases (is_lost now t)) [
  | inl e ↦ rw e (positive, (refl, refl, λ none_eq. cc))
  | inr e ↦ rw e (positive, h)
]

pub claim_task-IsSound :
    (objects : List Text) (now : ℕ) (uuid4 : ℕ → ℕ) (t : Task)
    → is_due now t ≡ true
    → IsSound objects t
    → IsSound objects (claim_task now uuid4 t)
unfolding claim_task is_due
claim_task-IsSound objects now uuid4 t due (positive, h) =
    (positive, ((λ e. cc), (λ e. cc), ground arith))

pub delete_failed-IsSound :
    (objects : List Text) (now : ℕ) (error : Text) (t : Task)
    → 0 < t.max_attempts
    → IsSound objects (delete_failed now error t)
unfolding delete_failed
delete_failed-IsSound objects now error t positive =
    elim (Bool-cases (leb t.max_attempts t.attempt_count)) [
      | inl e ↦ rw e (positive, (refl, refl, λ none_eq. cc))
      | inr e ↦ rw e (positive, (refl, refl, ground arith))
    ]

pub delete_succeeded-IsSound :
    (objects : List Text) (now : ℕ) (t : Task)
    → 0 < t.max_attempts
    → is_member t.object_key objects ≡ false
    → IsSound objects (delete_succeeded now t)
unfolding delete_succeeded
delete_succeeded-IsSound objects now t positive gone =
    (positive, (refl, refl, (λ none_eq. cc), gone))

pub All-assign :
    (P : Task → Type 0) (id : ℕ) (task : Task) (tasks : List Task)
    → P task
    → All P tasks
    → All P (assign id (λ _. task) tasks)
unfolding assign
All-assign P id task [] p h = tt
All-assign P id task (t ∷ tasks) p (a, h) = elim (Bool-cases (has_id id t)) [
  | inl e ↦ rw e (p, All-assign P id task tasks p h)
  | inr e ↦ rw e (a, All-assign P id task tasks p h)
]
