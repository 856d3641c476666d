-- ===== src/Worker/CompleteFaces.antt =====
-- backend/app/worker_api.py: `complete_worker_participant_face_job` and `complete_worker_face_search_job`;
-- backend/app/face.py: `complete_participant_face_job` and `complete_face_search_job`.
use race_frame.Prelude.{
  ℕ, false, List, [], ◌∷◌, ◌++◌, Option, none, some, ◌==◌, if◌then◌else◌, map, keep,
}
use race_frame.Http.{Result, ok}
use race_frame.Matching.Token.{Text}
use race_frame.Search.Best.{SearchResult, create_face_search_results}
use race_frame.Recognition.Tables.{TextRow, FaceRow, Tables}
use race_frame.Recognition.Faces.{create_face_participant_matches_for_participant}
use race_frame.Recognition.Reinforcement.{Evidence, as_detection, apply_adaptive_reinforcement}
use race_frame.Worker.Job.{Job, JobStatus, Model, update}
use race_frame.Worker.Session.{Session, flush, commit, save}
use race_frame.Worker.Attempt.{Current, state}
use race_frame.Worker.Parents.{
  set_face_image, set_search_image, mark_face_search_session_done_if_jobs_done,
}
use race_frame.Worker.Complete.{
  Work, CompletionOutside, cleared, completed_job, ready_image, server_error, complete_with,
}

module _ {E : Type 0} (outside : CompletionOutside E) where
  open outside use {
    finished_now, settled_now, event_of_photo, event_of_job, participant_of_job, participants_of,
    session_bib, new_face_id, wide, wide_space, four_digits, similarity, normalize,
    face_match_similarity_threshold, search_settings,
  }

  -- Behind the normal form of the embedding, which is a ValueError if there is none.
  unfoldable pub enroll : Job → E → Work E → Work E
  unfolding cleared completed_job create_face_participant_matches_for_participant
  enroll job embedding work =
      let with_row = record work.tables {
        embedding_rows =
            work.tables.embedding_rows
            ++ (record {
              event_of = event_of_job job;
              participant_of = participant_of_job job;
              face_image_of = job.parent_id;
              enrolled_embedding = embedding;
            }
                ∷ []);
      } in
      record {
        session = commit (
            flush (
              save (completed_job finished_now (cleared job))
                (set_face_image job.parent_id ready_image work.session)));
        tables =
            create_face_participant_matches_for_participant similarity
              face_match_similarity_threshold wide_space four_digits (participant_of_job job)
              (event_of_job job) with_row;
      }

  abbrev pub enroll_if : Job → Option E → Work E → Result (Work E × Current)
  enroll_if job none work = server_error
  enroll_if job (some embedding) work = ok (enroll job embedding work, state JobStatus.completed)

  unfoldable pub complete_worker_participant_face_job :
      ℕ → ℕ → E → Work E → Result (Work E × Current)
  unfolding complete_with enroll
  complete_worker_participant_face_job job_id attempt_id embedding work =
      complete_with outside Model.participant_face_job job_id attempt_id
        (λ job. enroll_if job (normalize embedding)) work

  abbrev pub find_face : ℕ → List (FaceRow E) → Option (FaceRow E)
  find_face id [] = none
  find_face id (row ∷ rows) = if row.face_id == id then some row else find_face id rows

  abbrev pub event_faces_of : ℕ → Tables E → List (FaceRow E)
  event_faces_of event_id tables = keep (λ row. row.face_event_id == event_id) tables.face_rows

  -- The rows that the reinforcement reads; a result's photo and face exist.
  unfoldable pub evidence_of : ℕ → Tables E → Evidence E
  evidence_of event_id tables = record {
    search_settings = search_settings;
    thresholds = outside.thresholds;
    face_reinforcement_max_embeddings = outside.face_reinforcement_max_embeddings;
    wide = wide;
    similarity = similarity;
    normalize = normalize;
    texts_of = λ photo_id. some (
        map (λ (row : TextRow). row.detected_text)
          (keep (λ row. row.text_photo_id == photo_id) tables.text_rows));
    face_of = λ face_id. find_face face_id tables.face_rows;
    event_faces = event_faces_of event_id tables;
  }

  -- Without a participant there is no reinforcement.
  abbrev pub reinforce_if :
      ℕ → Tables E → Option Text → List SearchResult → Option (List SearchResult)
  reinforce_if event_id tables none results = some results
  reinforce_if event_id tables (some bib_number) results =
      elim (apply_adaptive_reinforcement (evidence_of event_id tables) false (some bib_number)
        results) [ none ↦ none | some rounds ↦ some rounds.results ]

  abbrev pub search_and_reinforce :
      ℕ → Tables E → Option Text → Option (ℕ × List SearchResult) → Option (List SearchResult)
  search_and_reinforce event_id tables bib none = none
  search_and_reinforce event_id tables bib (some (count, results)) =
      reinforce_if event_id tables bib results

  -- The statuses of the search session's jobs are read with the job's own change not flushed.
  unfoldable pub finish_search : Job → Session → Session
  unfolding cleared completed_job mark_face_search_session_done_if_jobs_done
  finish_search job s = commit (
      mark_face_search_session_done_if_jobs_done settled_now job.search_session_id (
        save (completed_job finished_now (cleared job))
          (set_search_image job.parent_id ready_image s)))

  abbrev pub store_results : Job → Work E → Option (List SearchResult) → Result (Work E × Current)
  store_results job work none = server_error
  store_results job work (some results) =
      let tables = record work.tables {
        search_results = update work.tables.search_results job.search_session_id results;
      } in
      ok (
        record { session = finish_search job work.session; tables = tables },
        state JobStatus.completed,
      )

  abbrev pub search_if : Job → Option E → Work E → Result (Work E × Current)
  search_if job none work = server_error
  search_if job (some embedding) work = store_results job work (
      search_and_reinforce (event_of_job job) work.tables (session_bib job.search_session_id) (
        create_face_search_results search_settings (similarity embedding)
          (map (as_detection (evidence_of (event_of_job job) work.tables))
            (event_faces_of (event_of_job job) work.tables))
          (work.tables.search_results job.search_session_id)))

  unfoldable pub complete_worker_face_search_job : ℕ → ℕ → E → Work E → Result (Work E × Current)
  unfolding complete_with finish_search create_face_search_results apply_adaptive_reinforcement keep
      evidence_of
  complete_worker_face_search_job job_id attempt_id embedding work =
      complete_with outside Model.face_search_job job_id attempt_id
        (λ job. search_if job (normalize embedding)) work
