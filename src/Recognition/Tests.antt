-- ===== src/Recognition/Tests.antt =====
-- The results of recognition at concrete rows. An embedding is a number here, and two are as similar as they
-- are near.
use race_frame.Prelude.{codes, ℕ, ◌+◌, ◌-◌, ◌≡◌, refl, false, List, [], ◌∷◌, ◌++◌, some, take}
use race_frame.Matching.Token.{normalize_match_token, upper}
use race_frame.Search.Best.{SearchResult}
use race_frame.Recognition.Tables.{FaceRow, EmbeddingRow, Tables}
use race_frame.Recognition.Faces.{create_face_matches}
use race_frame.Recognition.BestScores.{score_of, best_similarity, create_face_matches-Best}
use race_frame.Recognition.Reinforcement.{Evidence, Rounds, apply_adaptive_reinforcement}
use race_frame.Recognition.Bounded.{IsBounded, apply_adaptive_reinforcement-IsBounded}

abbrev near : ℕ → ℕ → ℕ
near a b = 100 - ((a - b) + (b - a))

abbrev face_row : ℕ → ℕ → ℕ → FaceRow ℕ
face_row id photo embedding = record {
  face_id = id;
  face_event_id = 1;
  face_photo_id = photo;
  face_job_id = id;
  face_index = 0;
  face_embedding = embedding;
}

abbrev embedding_row : ℕ → ℕ → EmbeddingRow ℕ
embedding_row participant embedding = record {
  event_of = 1;
  participant_of = participant;
  face_image_of = 0;
  enrolled_embedding = embedding;
}

abbrev empty_tables : Tables ℕ
empty_tables = record {
  text_rows = [];
  face_rows = [];
  embedding_rows = [];
  face_matches = [];
  photo_matches = [];
  search_results = λ k. [];
}

abbrev enrolled : List (EmbeddingRow ℕ)
enrolled = embedding_row 8 40 ∷ embedding_row 9 10 ∷ embedding_row 8 53 ∷ []

abbrev matched : Tables ℕ
matched =
    create_face_matches near 90 (λ c. false) (λ n. codes "s") (face_row 4 2 50) enrolled
      empty_tables

recognised : Unit {0}
unfolding create_face_matches score_of best_similarity apply_adaptive_reinforcement
    normalize_match_token upper take
recognised = tt

best_stays : score_of 4 8 matched.face_matches ≡ some 97
unfolding recognised
best_stays = refl

create_face_matches-Best_example : score_of 4 8 matched.face_matches ≡ some 97
unfolding score_of best_similarity
create_face_matches-Best_example =
    create_face_matches-Best near 90 (λ c. false) (λ n. codes "s") (face_row 4 2 50) 4 8 enrolled
      empty_tables

abbrev evidence : Evidence ℕ
evidence = record {
  search_settings = record {
    face_candidate_similarity_threshold = 80;
    max_search_results = 10;
    max_search_faces_per_event = 10;
  };
  thresholds = record {
    face_candidate_similarity_threshold = 80;
    face_medium_similarity_threshold = 85;
    face_strong_similarity_threshold = 95;
    face_reinforcement_similarity_threshold = 90;
  };
  face_reinforcement_max_embeddings = 2;
  wide = λ c. [];
  similarity = near;
  normalize = some;
  texts_of = λ photo. some [];
  face_of = λ face. some (face_row face face (50 + face));
  event_faces = face_row 1 1 51 ∷ face_row 2 2 52 ∷ face_row 12 12 62 ∷ [];
}

abbrev probe_results : List SearchResult
probe_results =
    record { result_detection_id = 1; result_photo_id = 1; similarity_score = 99 }
    ∷ record { result_detection_id = 2; result_photo_id = 2; similarity_score = 98 }
    ∷ []

-- Both faces are searched again, and the third face is found by the way. The second round still sees the
-- scores that the first has loaded.
abbrev reinforced_rounds : Rounds
reinforced_rounds = record {
  results =
      record { result_detection_id = 1; result_photo_id = 1; similarity_score = 100 }
      ∷ record { result_detection_id = 2; result_photo_id = 2; similarity_score = 100 }
      ∷ record { result_detection_id = 12; result_photo_id = 12; similarity_score = 90 }
      ∷ [];
  seen =
      probe_results
      ++ (probe_results
          ++ (record { result_detection_id = 12; result_photo_id = 12; similarity_score = 90 }
              ∷ []));
  reinforced_detection_ids = 2 ∷ 1 ∷ [];
  created_total = 2;
}

reinforced_is :
    apply_adaptive_reinforcement evidence false (some (codes "7")) probe_results
    ≡ some reinforced_rounds
unfolding recognised
reinforced_is = refl

apply_adaptive_reinforcement-IsBounded_example : IsBounded 2 reinforced_rounds
apply_adaptive_reinforcement-IsBounded_example =
    apply_adaptive_reinforcement-IsBounded evidence false (some (codes "7")) probe_results
      reinforced_is
