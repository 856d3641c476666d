-- ===== src/Recognition/Faces.antt =====
-- backend/app/face.py: `create_face_matches` and `create_face_participant_matches_for_participant`. The
-- similarity of embeddings and the text of a score are arguments.
use race_frame.Prelude.{ℕ, Bool, ◌&&◌, List, [], ◌∷◌, some, leb, ltb, ◌==◌, if◌then◌else◌, keep}
use race_frame.Matching.Token.{Text}
use race_frame.Search.Merge.{face, upsert_final_photo_participant_match}
use race_frame.Recognition.Tables.{FaceRow, EmbeddingRow, FaceMatch, Tables}

-- `best_by_participant`, in the order in which its keys were first set.
abbrev pub Scores : Type 0
Scores = List (ℕ × ℕ)

unfoldable pub raise_score : ℕ → ℕ → Scores → Scores
raise_score participant_id score [] = (participant_id, score) ∷ []
raise_score participant_id score ((p, current) ∷ scores) =
    if p == participant_id
    then (p, if ltb current score then score else current) ∷ scores
    else (p, current) ∷ raise_score participant_id score scores

abbrev pub is_face_match : FaceMatch → FaceMatch → Bool
is_face_match new row =
    row.match_face_id == new.match_face_id
    && row.matched_participant_id == new.matched_participant_id

-- The conflict is on the detection and the participant; the greater score stays.
unfoldable pub upsert_face_match : FaceMatch → List FaceMatch → List FaceMatch
upsert_face_match new [] = new ∷ []
upsert_face_match new (row ∷ rows) =
    if is_face_match new row
    then record row {
      match_score =
          if leb new.match_score row.match_score then row.match_score else new.match_score;
    }
      ∷ rows
    else row ∷ upsert_face_match new rows

module _ {E : Type 0} (similarity : E → E → ℕ) (threshold : ℕ) where
  unfoldable pub best_by_participant : E → List (EmbeddingRow E) → Scores → Scores
  unfolding raise_score
  best_by_participant embedding [] scores = scores
  best_by_participant embedding (row ∷ rows) scores =
      let score = similarity embedding row.enrolled_embedding in
      best_by_participant embedding rows
        (if ltb score threshold then scores else raise_score row.participant_of score scores)

  module _ (wide_space : ℕ → Bool) (four_digits : ℕ → Text) where
    unfoldable pub store_score : FaceRow E → ℕ → ℕ → Tables E → Tables E
    unfolding upsert_face_match upsert_final_photo_participant_match
    store_score detection participant_id score tables = record tables {
      face_matches =
          upsert_face_match
            (record {
              match_event_id = detection.face_event_id;
              match_photo_id = detection.face_photo_id;
              match_face_id = detection.face_id;
              matched_participant_id = participant_id;
              match_score = score;
            })
            tables.face_matches;
      photo_matches =
          upsert_final_photo_participant_match wide_space
            (record {
              event_id = detection.face_event_id;
              photo_id = detection.face_photo_id;
              participant_id = participant_id;
              match_source = face;
              matched_value = four_digits score;
              confidence = some score;
            })
            tables.photo_matches;
    }

    unfoldable pub store_scores : FaceRow E → Scores → Tables E → Tables E
    unfolding store_score
    store_scores detection [] tables = tables
    store_scores detection ((participant_id, score) ∷ scores) tables =
        store_scores detection scores (store_score detection participant_id score tables)

    unfoldable pub create_face_matches : FaceRow E → List (EmbeddingRow E) → Tables E → Tables E
    unfolding best_by_participant store_scores
    create_face_matches detection participant_embeddings tables =
        store_scores detection
          (best_by_participant detection.face_embedding participant_embeddings []) tables

    unfoldable pub match_faces : List (FaceRow E) → List (EmbeddingRow E) → Tables E → Tables E
    unfolding create_face_matches
    match_faces [] embeddings tables = tables
    match_faces (detection ∷ detections) embeddings tables =
        match_faces detections embeddings (create_face_matches detection embeddings tables)

    unfoldable pub create_face_participant_matches_for_participant : ℕ → ℕ → Tables E → Tables E
    unfolding match_faces keep
    create_face_participant_matches_for_participant participant_id event_id tables =
        match_faces (keep (λ d. d.face_event_id == event_id) tables.face_rows)
          (keep (λ e. e.event_of == event_id && e.participant_of == participant_id)
            tables.embedding_rows)
          tables
