-- ===== src/Search/Consensus.antt =====
-- backend/app/face.py: `select_consensus_seed_embeddings` and `select_bib_only_seed_embeddings`. The sorts
-- are stable, the greatest first.
use race_frame.Prelude.{
  ℕ, ◌+◌, ◌*◌, max, Bool, true, false, not, ◌&&◌, ◌||◌, List, [], ◌∷◌, ◌++◌, map, Option, none,
  some, leb, ltb, ◌==◌, if◌then◌else◌, take, keep, is_empty, length,
}
use race_frame.Matching.Token.{Text}
use race_frame.Matching.Evidence.{has_exact_bib_match}
use race_frame.Search.Seeds.{
  Face, SeedSettings, ceil_times, photo_count, cluster_seed_faces, dedupe_seed_embeddings,
}

-- (len(photo_ids), avg_quality, cluster), where the average is the total over the size.
pub record Eligible (E : Type 0) : Type 0 where
  pub photos : ℕ
  pub total : ℕ
  pub cluster : List (Face E)

abbrev is_usable : {E : Type 0} → Option E → Bool
is_usable none = false
is_usable (some e) = true

abbrev pub not_below : {E : Type 0} → Eligible E → Eligible E → Bool
not_below a b =
    ltb b.photos a.photos
    || (a.photos == b.photos && leb (b.total * length a.cluster) (a.total * length b.cluster))

unfoldable pub insert_desc : {A : Type 0} → (A → A → Bool) → A → List A → List A
insert_desc before x [] = x ∷ []
insert_desc before x (y ∷ ys) = if before x y then x ∷ y ∷ ys else y ∷ insert_desc before x ys

unfoldable pub sort_desc : {A : Type 0} → (A → A → Bool) → List A → List A
unfolding insert_desc
sort_desc before [] = []
sort_desc before (x ∷ xs) = insert_desc before x (sort_desc before xs)

abbrev pub required_support : SeedSettings → ℕ → ℕ
required_support settings support_photo_count =
    max settings.bib_only_seed_cluster_min_photos
      (ceil_times support_photo_count settings.majority_ratio)

abbrev pub lacks_lead : {E : Type 0} → SeedSettings → Eligible E → List (Eligible E) → Bool
lacks_lead settings best [] = false
lacks_lead settings best (second ∷ rest) =
    not (leb (second.photos + 2) best.photos)
    && not (leb (ceil_times second.photos settings.lead_ratio) best.photos)

module _ {E : Type 0} (similarity : E → E → ℕ) (normalize : E → Option E)
    (average : List (Face E) → E) (quality : Face E → ℕ) (settings : SeedSettings) where
  abbrev total_quality : List (Face E) → ℕ
  total_quality [] = 0
  total_quality (face ∷ faces) = quality face + total_quality faces

  unfoldable pub eligible_clusters : List (List (Face E)) → List (Eligible E)
  unfolding photo_count
  eligible_clusters [] = []
  eligible_clusters (cluster ∷ clusters) =
      let rest = eligible_clusters clusters in
      let entry : Eligible E = record {
        photos = photo_count cluster;
        total = total_quality cluster;
        cluster = cluster;
      } in
      if ltb (photo_count cluster) settings.bib_only_seed_cluster_min_photos
      then rest
      else entry ∷ rest

  abbrev by_quality : List (Face E) → List (Face E)
  by_quality faces = sort_desc (λ a b. leb (quality b) (quality a)) faces

  unfoldable pub seeds_of : List (Face E) → List E
  unfolding sort_desc take dedupe_seed_embeddings
  seeds_of cluster =
      let best_faces = by_quality cluster in
      take 3 (
        dedupe_seed_embeddings similarity normalize settings
          (average best_faces ∷ map (λ (face : Face E). face.embedding) (take 2 best_faces)))

  unfoldable pub choose : ℕ → List (Eligible E) → List E
  unfolding seeds_of
  choose support_photo_count [] = []
  choose support_photo_count (best ∷ rest) =
      if ltb best.photos (required_support settings support_photo_count)
      then []
      else if lacks_lead settings best rest
      then []
      else seeds_of best.cluster

  unfoldable pub select_consensus_seed_embeddings : List (Face E) → ℕ → List E
  unfolding choose sort_desc eligible_clusters cluster_seed_faces
  select_consensus_seed_embeddings faces support_photo_count =
      if is_empty faces || support_photo_count == 0
      then []
      else choose support_photo_count (
          sort_desc not_below
            (eligible_clusters (cluster_seed_faces similarity normalize settings faces)))

  -- A photo by the texts and the faces that were found in it.
  pub record SeedPhoto : Type 0 where
    pub texts : List Text
    pub faces : List (Face E)

  pub record SeedState : Type 0 where
    pub candidate_faces : List (Face E)
    pub exact_bib_photo_count : ℕ
    pub usable_face_photo_count : ℕ
    pub single_embedding : Option E

  abbrev is_dominant_face : List (Face E) → Bool
  is_dominant_face (best ∷ second ∷ faces) =
      ltb 0 (quality best) && leb (quality second * 18) (quality best * 10)
  is_dominant_face _ = true

  -- A photo with the bib, by its usable faces, the best one first; `n` photos had the bib with it.
  unfoldable pub add_photo : ℕ → List (Face E) → SeedState → SeedState
  unfolding take
  add_photo n [] s = record s { exact_bib_photo_count = n }
  add_photo n (face ∷ []) s = record {
    candidate_faces = s.candidate_faces ++ (face ∷ []);
    exact_bib_photo_count = n;
    usable_face_photo_count = s.usable_face_photo_count + 1;
    single_embedding = if n == 1 then normalize face.embedding else s.single_embedding;
  }
  add_photo n (face ∷ other ∷ faces) s = record {
    candidate_faces =
        s.candidate_faces
        ++ (if is_dominant_face (face ∷ other ∷ faces)
            then face ∷ []
            else take 4 (face ∷ other ∷ faces));
    exact_bib_photo_count = n;
    usable_face_photo_count = s.usable_face_photo_count + 1;
    single_embedding = s.single_embedding;
  }

  -- The loop over the photos, the newest first; it breaks at the limit.
  unfoldable pub visit_photos : (ℕ → Text) → Text → List SeedPhoto → SeedState → SeedState
  unfolding add_photo sort_desc keep has_exact_bib_match
  visit_photos wide bib_number [] s = s
  visit_photos wide bib_number (photo ∷ photos) s =
      let n = s.exact_bib_photo_count + 1 in
      let skipped = visit_photos wide bib_number photos s in
      let good_faces =
        by_quality (keep (λ (face : Face E). is_usable (normalize face.embedding)) photo.faces) in
      let visited = visit_photos wide bib_number photos (add_photo n good_faces s) in
      if not (has_exact_bib_match wide photo.texts bib_number)
      then skipped
      else if ltb settings.bib_only_seed_photo_limit n
      then record s { exact_bib_photo_count = n }
      else visited

  abbrev single_seed : SeedState → Option E → List E
  single_seed s none = []
  single_seed s (some embedding) =
      if s.exact_bib_photo_count == 1 && s.usable_face_photo_count == 1 then embedding ∷ [] else []

  abbrev or_single : SeedState → List E → List E
  or_single s [] = single_seed s s.single_embedding
  or_single s (seed ∷ seeds) = seed ∷ seeds

  unfoldable pub select_bib_only_seed_embeddings : (ℕ → Text) → Text → List SeedPhoto → List E
  unfolding visit_photos select_consensus_seed_embeddings
  select_bib_only_seed_embeddings wide bib_number photos =
      let s = visit_photos wide bib_number photos (record {
        candidate_faces = [];
        exact_bib_photo_count = 0;
        usable_face_photo_count = 0;
        single_embedding = none;
      }) in
      or_single s (select_consensus_seed_embeddings s.candidate_faces s.usable_face_photo_count)
