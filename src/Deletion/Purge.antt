-- ===== src/Deletion/Purge.antt =====
-- backend/app/maintenance.py: `purge_expired_face_searches`.
use race_frame.Prelude.{
  ℕ, ◌≡◌, inl, inr, min, max, Bool, true, false, not, ◌&&◌, any, List, [], ◌∷◌, some, leb, ◌==◌,
  is_empty, keep, take, order_by, All, All-mono, arith, Bool-cases,
}
use race_frame.Matching.Token.{Text, text_eq}
use race_frame.Deletion.Task.{Task, World}
use race_frame.Deletion.Outbox.{upsert_task, enqueue_object_deletion, is_due}
use race_frame.Deletion.Shape.{AllSound, IsSound}
use race_frame.Deletion.Enqueue.{waits_for, enqueue_object_deletion-Waits}

-- A row of FaceSearchSession with the keys of its images.
pub record FaceSearch : Type 0 where
  pub id : ℕ
  pub expires_at : ℕ
  pub images : List Text

-- The clock, the rows that others have locked, and the identifier of a new task for a key.
module _ (now : ℕ) (locked : ℕ → Bool) (new_id : Text → ℕ) where
  unfoldable pub expired : ℕ → List FaceSearch → List FaceSearch
  unfolding take order_by keep
  expired limit searches = take (max 1 (min limit 5_000)) (
      order_by (λ (s : FaceSearch). s.expires_at)
        (keep (λ (s : FaceSearch). not (locked s.id) && leb s.expires_at now) searches))

  unfoldable pub enqueue_images : List Text → World → World
  unfolding enqueue_object_deletion
  enqueue_images [] w = w
  enqueue_images (key ∷ images) w =
      enqueue_images images (enqueue_object_deletion now (new_id key) (some key) w)

  unfoldable pub enqueue_searches : List FaceSearch → World → World
  unfolding enqueue_images
  enqueue_searches [] w = w
  enqueue_searches (s ∷ searches) w = enqueue_searches searches (enqueue_images s.images w)

  -- The searches that stay, and the outbox.
  unfoldable pub purge_expired_face_searches : ℕ → List FaceSearch → World → List FaceSearch × World
  unfolding expired enqueue_searches keep
  purge_expired_face_searches limit searches w =
      let gone = expired limit searches in
      (
        keep (λ (s : FaceSearch). not (any (λ (g : FaceSearch). g.id == s.id) gone)) searches,
        enqueue_searches gone w,
      )

  abbrev pub waits_in : World → Text → Bool
  waits_in w key = any (waits_for now key) w.tasks

  -- A task that waits for a key still does when another key is enqueued.
  upsert_task-waits :
      (objects : List Text) (id : ℕ) (key other : Text) (tasks : List Task)
      → All (IsSound objects) tasks
      → any (waits_for now key) tasks ≡ true
      → any (waits_for now key) (upsert_task now id other tasks) ≡ true
  unfolding upsert_task is_due
  upsert_task-waits objects id key other [] sound waits = cc
  upsert_task-waits objects id key other (task ∷ tasks) ((positive, shape), sound) waits =
      elim (Bool-cases (text_eq task.object_key other)) [
        | inl e ↦ rw e elim (Bool-cases (text_eq task.object_key key)) [
          | inl is ↦ rw is (ground arith)
          | inr isnt ↦ rw isnt (rw isnt at waits)
        ]
        | inr e ↦ rw e elim (Bool-cases (waits_for now key task)) [
          | inl now_due ↦ ground (arith, now_due)
          | inr later ↦
              let rest = upsert_task-waits objects id key other tasks sound (rw later at waits) in
              ground (arith, rest)
        ]
      ]

  enqueue_object_deletion-waits :
      (id : ℕ) (key other : Text) (w : World)
      → AllSound w
      → waits_in w key ≡ true
      → waits_in (enqueue_object_deletion now id (some other) w) key ≡ true
  unfolding enqueue_object_deletion
  enqueue_object_deletion-waits id key other w sound waits = elim (Bool-cases (is_empty other)) [
    | inl e ↦ rw e waits
    | inr e ↦ rw e (upsert_task-waits w.objects id key other w.tasks sound.1 waits)
  ]

  -- What has been enqueued for a search, with the tasks that waited before.
  abbrev Enqueued : List Text → World → World → Type 0
  Enqueued keys w w' =
      AllSound w'
      × All (λ key. waits_in w' key ≡ true) keys
      × ((key : Text) → waits_in w key ≡ true → waits_in w' key ≡ true)

  abbrev IsKey : Text → Type 0
  IsKey key = is_empty key ≡ false

  enqueue_images-Enqueued :
      (images : List Text) (w : World)
      → All IsKey images
      → AllSound w
      → Enqueued images w (enqueue_images images w)
  unfolding enqueue_images
  enqueue_images-Enqueued [] w keys sound = (sound, tt, λ key h. h)
  enqueue_images-Enqueued (key ∷ images) w (filled, keys) sound =
      let w' = enqueue_object_deletion now (new_id key) (some key) w in
      let (waits, sound') = enqueue_object_deletion-Waits now (new_id key) key w filled sound in
      let (last, all_wait, kept) = enqueue_images-Enqueued images w' keys sound' in
      (
        last,
        (kept key waits, all_wait),
        λ other h. kept other (enqueue_object_deletion-waits (new_id key) other key w sound h),
      )

  -- Each image of each search.
  abbrev pub AllImages : (Text → Type 0) → List FaceSearch → Type 0
  AllImages P searches = All (λ (s : FaceSearch). All P s.images) searches

  enqueue_searches-Enqueued :
      (searches : List FaceSearch) (w : World)
      → AllImages IsKey searches
      → AllSound w
      → AllSound (enqueue_searches searches w)
        × AllImages (λ key. waits_in (enqueue_searches searches w) key ≡ true) searches
        × ((key : Text) → waits_in w key ≡ true → waits_in (enqueue_searches searches w) key ≡ true)
  unfolding enqueue_searches
  enqueue_searches-Enqueued [] w keys sound = (sound, tt, λ key h. h)
  enqueue_searches-Enqueued (s ∷ searches) w (filled, keys) sound =
      let (sound', waits, kept) = enqueue_images-Enqueued s.images w filled sound in
      let (last, all_wait, still) =
        enqueue_searches-Enqueued searches (enqueue_images s.images w) keys sound' in
      (last, (All-mono s.images still waits, all_wait), λ key h. still key (kept key h))

  -- When expired searches are purged, each of their images has a task that a run can take at once, and every
  -- task keeps the shape of its status: no image is forgotten with its search.
  pub purge_expired_face_searches-Waits :
      (limit : ℕ) (searches : List FaceSearch) (w : World)
      → AllImages IsKey (expired limit searches)
      → AllSound w
      → AllSound (purge_expired_face_searches limit searches w).1
        × AllImages
            (λ key. waits_in (purge_expired_face_searches limit searches w).1 key ≡ true)
            (expired limit searches)
  unfolding purge_expired_face_searches
  purge_expired_face_searches-Waits limit searches w keys sound =
      let (last, all_wait, _) = enqueue_searches-Enqueued (expired limit searches) w keys sound in
      (last, all_wait)
