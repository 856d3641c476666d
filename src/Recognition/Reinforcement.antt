-- ===== src/Recognition/Reinforcement.antt =====
-- backend/app/face.py: `apply_adaptive_reinforcement`. The rounds query the results again, but an object
-- that the session has loaded keeps the score that it was loaded with.
use race_frame.Prelude.{
  ℕ, ◌+◌, Bool, true, false, ◌&&◌, List, [], ◌∷◌, ◌++◌, Option, none, some, leb, ◌==◌,
  if◌then◌else◌, map, take, any,
}
use race_frame.Matching.Token.{Text}
use race_frame.Matching.Evidence.{
  score_bib_evidence, has_exact_bib_match, Thresholds, should_reinforce_face,
}
use race_frame.Search.Best.{SearchResult, SearchSettings, Detection, create_face_search_results}
use race_frame.Search.Consensus.{sort_desc}
use race_frame.Recognition.Tables.{FaceRow}

-- What the function reads: the participant of the search, the texts of a photo and the face of a result
-- (`none` where the row is gone), and the floats of the embeddings.
pub record Evidence (E : Type 0) : Type 0 where
  pub search_settings : SearchSettings
  pub thresholds : Thresholds
  pub face_reinforcement_max_embeddings : ℕ
  pub wide : ℕ → Text
  pub similarity : E → E → ℕ
  pub normalize : E → Option E
  pub texts_of : ℕ → Option (List Text)
  pub face_of : ℕ → Option (FaceRow E)
  pub event_faces : List (FaceRow E)

-- The results in the table, those that are loaded, the detections that were used and how many.
pub record Rounds : Type 0 where
  pub results : List SearchResult
  pub seen : List SearchResult
  pub reinforced_detection_ids : List ℕ
  pub created_total : ℕ

abbrev pub better : SearchResult → SearchResult → Bool
better a b = leb b.similarity_score a.similarity_score

abbrev pub contains : ℕ → List ℕ → Bool
contains x xs = any (λ y. y == x) xs

unfoldable pub object_of : SearchResult → List SearchResult → SearchResult
object_of row [] = row
object_of row (r ∷ seen) =
    if r.result_detection_id == row.result_detection_id then r else object_of row seen

module _ {E : Type 0} (evidence : Evidence E) where
  open evidence use {
    search_settings, thresholds, face_reinforcement_max_embeddings, wide, similarity, normalize,
    texts_of, face_of, event_faces,
  }

  abbrev pub as_detection : FaceRow E → Detection E
  as_detection row = record {
    id = row.face_id;
    photo_of = row.face_photo_id;
    embedding_json = row.face_embedding;
  }

  -- The photo's texts speak for the participant.
  unfoldable pub is_supported : Bool → Text → ℕ → List Text → Bool
  unfolding has_exact_bib_match score_bib_evidence should_reinforce_face
  is_supported require_exact_bib bib_number score texts =
      if require_exact_bib
      then has_exact_bib_match wide texts bib_number
        && leb thresholds.face_reinforcement_similarity_threshold score
      else should_reinforce_face thresholds score
          (score_bib_evidence wide texts bib_number).strength

  abbrev pub embedding_if_new : FaceRow E → List ℕ → Option E
  embedding_if_new row ids = if contains row.face_id ids then none else normalize row.face_embedding

  abbrev pub embedding_if : Bool → FaceRow E → List ℕ → Option (ℕ × E)
  embedding_if supported row ids = elim (if supported then embedding_if_new row ids else none) [
    | none ↦ none
    | some embedding ↦ some (row.face_id, embedding)
  ]

  abbrev pub used_by :
      Bool → Text → SearchResult → Option (List Text) → Option (FaceRow E) → List ℕ → Option (ℕ × E)
  used_by require_exact_bib bib_number result none face ids = none
  used_by require_exact_bib bib_number result (some texts) none ids = none
  used_by require_exact_bib bib_number result (some texts) (some row) ids =
      embedding_if (is_supported require_exact_bib bib_number result.similarity_score texts) row ids

  -- The detection and the embedding that a result is reinforced with, unless it is passed over.
  unfoldable pub usable : Bool → Text → SearchResult → List ℕ → Option (ℕ × E)
  unfolding is_supported
  usable require_exact_bib bib_number result ids =
      used_by require_exact_bib bib_number result (texts_of result.result_photo_id)
        (face_of result.result_detection_id) ids

  abbrev pub reinforced : Rounds → ℕ → ℕ × List SearchResult → Rounds
  reinforced rounds face_id (count, results) = record rounds {
    results = results;
    reinforced_detection_ids = face_id ∷ rounds.reinforced_detection_ids;
    created_total = rounds.created_total + 1;
  }

  -- One round over its candidates: whether the function returned within, and `none` for a RuntimeError.
  unfoldable pub reinforce_round : Bool → Text → List SearchResult → Rounds → Option (Bool × Rounds)
  unfolding usable create_face_search_results
  reinforce_round require_exact_bib bib_number [] rounds = some (false, rounds)
  reinforce_round require_exact_bib bib_number (result ∷ candidates) rounds =
      elim (leb face_reinforcement_max_embeddings rounds.created_total) [
        | true ↦ some (true, rounds)
        | false ↦
            elim (usable require_exact_bib bib_number result rounds.reinforced_detection_ids) [
              | none ↦ reinforce_round require_exact_bib bib_number candidates rounds
              | some (face_id, embedding) ↦
                  elim (create_face_search_results search_settings (similarity embedding)
                    (map as_detection event_faces) rounds.results) [
                      | none ↦ none
                      | some created ↦
                          reinforce_round require_exact_bib bib_number candidates
                            (reinforced rounds face_id created)
                    ]
            ]
      ]

  -- `order_by(similarity_score.desc()).limit(…)`, as objects.
  unfoldable pub load_candidates : Rounds → List SearchResult
  unfolding object_of sort_desc take
  load_candidates rounds =
      map (λ row. object_of row rounds.seen)
        (take search_settings.max_search_results (sort_desc better rounds.results))

  abbrev pub with_seen : Rounds → Rounds
  with_seen rounds = record rounds { seen = rounds.seen ++ load_candidates rounds }

  unfoldable pub run_round : Bool → Text → Rounds → Option (Bool × Rounds)
  unfolding load_candidates reinforce_round
  run_round require_exact_bib bib_number rounds =
      reinforce_round require_exact_bib bib_number (load_candidates rounds) (with_seen rounds)

  abbrev pub second_round : Bool → Text → Option (Bool × Rounds) → Option Rounds
  second_round require_exact_bib bib_number none = none
  second_round require_exact_bib bib_number (some (true, rounds)) = some rounds
  second_round require_exact_bib bib_number (some (false, rounds)) =
      if rounds.created_total == 0
      then some rounds
      else elim (run_round require_exact_bib bib_number rounds) [
        | none ↦ none
        | some (returned, rounds') ↦ some rounds'
      ]

  -- `participant_bib` is the bib of the session's participant, if there is one.
  unfoldable pub apply_adaptive_reinforcement :
      Bool → Option Text → List SearchResult → Option Rounds
  unfolding run_round
  apply_adaptive_reinforcement require_exact_bib none results =
      some
        (record { results = results; seen = []; reinforced_detection_ids = []; created_total = 0 })
  apply_adaptive_reinforcement require_exact_bib (some bib_number) results =
      second_round require_exact_bib bib_number (
        run_round require_exact_bib bib_number (record {
          results = results;
          seen = [];
          reinforced_detection_ids = [];
          created_total = 0;
        }))
