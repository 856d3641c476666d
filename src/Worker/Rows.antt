-- ===== src/Worker/Rows.antt =====
-- What the session operations of the control plane do to the rows of the job tables.
use race_frame.Prelude.{
  ◌≡◌, refl, true, inl, inr, List, [], ◌∷◌, map, ℕ, arith, All, All-map, All-mono, Bool-cases,
}
use race_frame.Worker.Job.{Job, same_row}
use race_frame.Worker.Session.{Row, Session, flush_row, before_query, assign_rows}
use race_frame.Worker.Parents.{
  Fallbacks, sync_terminal_parent_state, mark_parent_processing, mark_photo_ready_if_jobs_done,
  mark_face_search_session_done_if_jobs_done,
}

-- A property of rows that survives a flush is kept by whatever only writes parents.
module _ (P : Row → Type 0) (flushed : (row : Row) → P row → P (flush_row row)) where
  All-flush : (rows : List Row) → All P rows → All P (map flush_row rows)
  All-flush rows h = All-map P flush_row rows (All-mono rows flushed h)

  pub All-before_query : (s : Session) → All P s.rows → All P (before_query s).rows
  All-before_query s h = elim (Bool-cases s.autoflush) [
    | inl e ↦ rw e (All-flush s.rows h)
    | inr e ↦ rw e h
  ]

  pub All-sync :
      (texts : Fallbacks) (now : ℕ) (job : Job) (s : Session)
      → All P s.rows
      → All P (sync_terminal_parent_state texts now job s).rows
  unfolding sync_terminal_parent_state
  All-sync texts now job s h = ground (arith, All-flush s.rows h)

  pub All-mark :
      (job : Job) (s : Session) → All P s.rows → All P (mark_parent_processing job s).rows
  unfolding mark_parent_processing
  All-mark job s h = ground arith

  pub All-mark_photo :
      (k : ℕ) (s : Session) → All P s.rows → All P (mark_photo_ready_if_jobs_done k s).rows
  unfolding mark_photo_ready_if_jobs_done
  All-mark_photo k s h = ground (arith, All-before_query s)

  pub All-mark_session :
      (now k : ℕ) (s : Session)
      → All P s.rows
      → All P (mark_face_search_session_done_if_jobs_done now k s).rows
  unfolding mark_face_search_session_done_if_jobs_done
  All-mark_session now k s h = ground (arith, All-before_query s)

-- An assignment keeps a property that the new values have on the rows that it touches.
pub All-assign_rows :
    (P : Row → Type 0) (f : Job → Job) (job : Job) (rows : List Row)
    → ((row : Row) → P row → same_row row.live job ≡ true → P (record row { live = f row.live }))
    → All P rows
    → All P (assign_rows f job rows)
unfolding assign_rows
All-assign_rows P f job [] k h = tt
All-assign_rows P f job (row ∷ rows) k (p, h) = elim (Bool-cases (same_row row.live job)) [
  | inl e ↦ rw e (k row p e, All-assign_rows P f job rows k h)
  | inr e ↦ rw e (p, All-assign_rows P f job rows k h)
]

-- After all of an object's values are assigned, its rows hold just those.
pub saved-rows :
    (job : Job) (rows : List Row)
    → All
        (λ (row : Row). same_row row.live job ≡ true → row.live ≡ job)
        (assign_rows (λ _. job) job rows)
unfolding assign_rows
saved-rows job [] = tt
saved-rows job (row ∷ rows) = elim (Bool-cases (same_row row.live job)) [
  | inl e ↦ rw e (λ _. refl, saved-rows job rows)
  | inr e ↦ rw e (λ same. cc, saved-rows job rows)
]
