-- ===== src/Search/Seeds.antt =====
-- backend/app/face.py: the faces from which a search by bib alone starts. What is computed in floats is an
-- argument: the similarity of two embeddings (a negative one counts as 0, which no comparison tells
-- apart), the normal form of an embedding, the average of some, and the quality of a face.
use race_frame.Prelude.{
  ℕ, zero, suc, ◌+◌, ◌-◌, ◌*◌, ◌/◌, max, Bool, any, List, [], ◌∷◌, ◌++◌, Option, none, some, leb,
  ltb, ◌==◌, if◌then◌else◌,
}

-- A row of PhotoFaceDetection.
pub record Face (E : Type 0) : Type 0 where
  pub photo : ℕ
  pub embedding : E

-- A ratio is a fraction.
pub record SeedSettings : Type 0 where
  pub face_reinforcement_similarity_threshold : ℕ
  pub near_duplicate_similarity : ℕ
  pub bib_only_seed_photo_limit : ℕ
  pub bib_only_seed_cluster_min_photos : ℕ
  pub majority_ratio : ℕ × ℕ
  pub lead_ratio : ℕ × ℕ

-- `math.ceil(n * ratio)`
abbrev pub ceil_times : ℕ → ℕ × ℕ → ℕ
ceil_times n (numerator, denominator) = (n * numerator + (denominator - 1)) / denominator

-- The number of different photos: `len({face.photo_id for face in cluster})`.
unfoldable pub photo_count : {E : Type 0} → List (Face E) → ℕ
photo_count [] = 0
photo_count (face ∷ faces) =
    let rest = photo_count faces in
    if any (λ other. other.photo == face.photo) faces then rest else rest + 1

unfoldable pub append_at : {E : Type 0} → ℕ → Face E → List (List (Face E)) → List (List (Face E))
append_at i face [] = []
append_at zero face (cluster ∷ clusters) = (cluster ++ (face ∷ [])) ∷ clusters
append_at (suc i) face (cluster ∷ clusters) = cluster ∷ append_at i face clusters

module _ {E : Type 0} (similarity : E → E → ℕ) (normalize : E → Option E) where
  -- `max(cosine_similarity(embedding, other.embedding_json) for other in cluster)`
  unfoldable pub cluster_score : E → List (Face E) → ℕ
  cluster_score embedding [] = 0
  cluster_score embedding (other ∷ cluster) =
      max (similarity embedding other.embedding) (cluster_score embedding cluster)

  -- The loop over the clusters: the best score and where it is.
  unfoldable pub best_cluster : E → ℕ → List (List (Face E)) → ℕ × Option ℕ → ℕ × Option ℕ
  unfolding cluster_score
  best_cluster embedding i [] best = best
  best_cluster embedding i (cluster ∷ clusters) (score, place) =
      best_cluster embedding (i + 1) clusters (
        if ltb score (cluster_score embedding cluster)
        then (cluster_score embedding cluster, some i)
        else (score, place))

  unfoldable pub put_face :
      SeedSettings → Face E → ℕ × Option ℕ → List (List (Face E)) → List (List (Face E))
  unfolding append_at
  put_face settings face (score, none) clusters = clusters ++ ((face ∷ []) ∷ [])
  put_face settings face (score, some i) clusters =
      if leb settings.face_reinforcement_similarity_threshold score
      then append_at i face clusters
      else clusters ++ ((face ∷ []) ∷ [])

  unfoldable pub add_face :
      SeedSettings → Face E → Option E → List (List (Face E)) → List (List (Face E))
  unfolding best_cluster put_face
  add_face settings face none clusters = clusters
  add_face settings face (some embedding) clusters =
      put_face settings face (best_cluster embedding 0 clusters (0, none)) clusters

  unfoldable pub cluster_from :
      SeedSettings → List (Face E) → List (List (Face E)) → List (List (Face E))
  unfolding add_face
  cluster_from settings [] clusters = clusters
  cluster_from settings (face ∷ faces) clusters =
      cluster_from settings faces (add_face settings face (normalize face.embedding) clusters)

  unfoldable pub cluster_seed_faces : SeedSettings → List (Face E) → List (List (Face E))
  unfolding cluster_from
  cluster_seed_faces settings faces = cluster_from settings faces []

  abbrev is_near : SeedSettings → E → E → Bool
  is_near settings embedding existing =
      leb settings.near_duplicate_similarity (similarity embedding existing)

  unfoldable pub add_seed : SeedSettings → Option E → List E → List E
  add_seed settings none deduped = deduped
  add_seed settings (some embedding) deduped =
      if any (is_near settings embedding) deduped then deduped else deduped ++ (embedding ∷ [])

  unfoldable pub dedupe_from : SeedSettings → List E → List E → List E
  unfolding add_seed
  dedupe_from settings [] deduped = deduped
  dedupe_from settings (embedding ∷ embeddings) deduped =
      dedupe_from settings embeddings (add_seed settings (normalize embedding) deduped)

  unfoldable pub dedupe_seed_embeddings : SeedSettings → List E → List E
  unfolding dedupe_from
  dedupe_seed_embeddings settings embeddings = dedupe_from settings embeddings []
