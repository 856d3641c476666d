-- ===== src/Recognition/Tables.antt =====
-- backend/app/models.py: the rows that the completion of a job writes. `E` is an embedding as a list of
-- floats, and a score is a number that orders as the float does.
use race_frame.Prelude.{ℕ, List, Option}
use race_frame.Matching.Token.{Text}
use race_frame.Search.Merge.{Match}
use race_frame.Search.Best.{SearchResult}

-- A row of PhotoTextDetection.
pub record TextRow : Type 0 where
  pub text_photo_id : ℕ
  pub text_job_id : ℕ
  pub detected_text : Text
  pub normalized_text : Text
  pub confidence : Option ℕ

-- A row of PhotoFaceDetection.
pub record FaceRow (E : Type 0) : Type 0 where
  pub face_id : ℕ
  pub face_event_id : ℕ
  pub face_photo_id : ℕ
  pub face_job_id : ℕ
  pub face_index : ℕ
  pub face_embedding : E

-- A row of ParticipantFaceEmbedding.
pub record EmbeddingRow (E : Type 0) : Type 0 where
  pub event_of : ℕ
  pub participant_of : ℕ
  pub face_image_of : ℕ
  pub enrolled_embedding : E

-- A row of FaceParticipantMatch, whose status is always "auto_matched".
pub record FaceMatch : Type 0 where
  pub match_event_id : ℕ
  pub match_photo_id : ℕ
  pub match_face_id : ℕ
  pub matched_participant_id : ℕ
  pub match_score : ℕ

-- The results of a search are a table of its session.
pub record Tables (E : Type 0) : Type 0 where
  pub text_rows : List TextRow
  pub face_rows : List (FaceRow E)
  pub embedding_rows : List (EmbeddingRow E)
  pub face_matches : List FaceMatch
  pub photo_matches : List Match
  pub search_results : ℕ → List SearchResult
