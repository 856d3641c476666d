-- ===== src/Search/Tests.antt =====
-- Small searches, and the reports of an OCR and a face job on one photo.
use mathlib.Core.List.{Permᴰ}
use race_frame.Prelude.{
  arith, codes, ℕ, ◌≡◌, refl, false, List, [], ◌∷◌, ◌++◌, none, some, keep, take, ◌-◌, ◌==◌, true,
  min, max, if◌then◌else◌, is_empty, All, Option,
}
use race_frame.Search.Best.{
  Item, SearchSettings, push, replace_least, is_candidate, offer, keep_best, upsert_result,
  upsert_all, create_face_search_results,
}
use race_frame.Search.Top.{keep_best-Best}
use race_frame.Search.Heap.{Split}
use race_frame.Search.Merge.{
  Match, ocr, face, ocr_face, strip_start, strip_end, clamp_match_value, merged_confidence,
  merged_source, merged_value, merge_match, upsert_row, upsert_final_photo_participant_match,
}
use race_frame.Search.Seeds.{
  Face, SeedSettings, photo_count, append_at, cluster_score, best_cluster, put_face, add_face,
  cluster_from, cluster_seed_faces, add_seed, dedupe_from, dedupe_seed_embeddings,
}
use race_frame.Search.Clusters.{concat, is_usable, cluster_seed_faces-Perm}
use race_frame.Search.Consensus.{
  insert_desc, sort_desc, eligible_clusters, seeds_of, choose, select_consensus_seed_embeddings,
}
use race_frame.Matching.Token.{Text, normalize_match_token}
use race_frame.Matching.Candidates.{extract_match_candidates}
use race_frame.Matching.Evidence.{has_exact_bib_match, exact_bib_match_values}
use race_frame.Search.Ocr.{
  Participant, TextDetection, participant_by_bib, match_participant, match_values,
  create_ocr_participant_matches, is_matched, create_ocr_participant_matches-Complete,
}
use race_frame.Search.Order.{summary, upsert_matches, upsert_matches-Perm}

abbrev settings : SearchSettings
settings = record {
  face_candidate_similarity_threshold = 3;
  max_search_results = 2;
  max_search_faces_per_event = 10;
}

abbrev item : ℕ → ℕ → Item
item id score = record { score = score; detection_id = id; photo_id = id }

abbrev by_ocr : Match
by_ocr = record {
  event_id = 1;
  photo_id = 7;
  participant_id = 9;
  match_source = ocr;
  matched_value = codes " 123 ";
  confidence = some 90;
}

abbrev by_face : Match
by_face = record {
  event_id = 1;
  photo_id = 7;
  participant_id = 9;
  match_source = face;
  matched_value = codes "0.5";
  confidence = some 50;
}

program : Unit {0}
unfolding push replace_least offer keep_best upsert_result upsert_all create_face_search_results
    strip_start strip_end clamp_match_value merged_confidence merged_source merged_value merge_match
    upsert_row upsert_final_photo_participant_match summary upsert_matches keep take
program = tt

two_best :
    keep_best settings (item 1 5 ∷ item 2 2 ∷ item 3 4 ∷ item 4 9 ∷ item 5 5 ∷ []) []
    ≡ some (item 1 5 ∷ item 4 9 ∷ [])
unfolding program
two_best = refl

too_many_faces :
    create_face_search_results
      (record settings { max_search_faces_per_event = 0 })
      (λ (e : ℕ). e)
      (record { id = 1; photo_of = 1; embedding_json = 4 } ∷ [])
      []
    ≡ none
unfolding program
too_many_faces = refl

merged :
    upsert_matches (λ c. false) (by_ocr ∷ by_face ∷ []) []
    ≡ record by_ocr { match_source = ocr_face; matched_value = codes "123 | face:0.5" } ∷ []
unfolding program
merged = refl

keep_best-Best_example :
    (kept : List Item) × (rest : List Item) × (keep_best settings
        (item 1 5 ∷ item 3 4 ∷ item 4 9 ∷ [])
        []
      ≡ some kept)
    × Permᴰ (kept ++ rest) (keep (is_candidate settings) (item 1 5 ∷ item 3 4 ∷ item 4 9 ∷ []))
    × Split settings kept rest
keep_best-Best_example = keep_best-Best settings (omega arith) (item 1 5 ∷ item 3 4 ∷ item 4 9 ∷ [])

upsert_matches-Perm_example :
    summary 7 9 (upsert_matches (λ c. false) (by_ocr ∷ by_face ∷ []) [])
    ≡ summary 7 9 (upsert_matches (λ c. false) (by_face ∷ by_ocr ∷ []) [])
upsert_matches-Perm_example = upsert_matches-Perm (λ c. false) 7 9 (Permᴰ.swap refl refl) []

-- Embeddings are numbers; two are as similar as they are close.
abbrev closeness : ℕ → ℕ → ℕ
closeness a b = 100 - (max a b - min a b)

abbrev usable_if_positive : ℕ → Option ℕ
usable_if_positive e = if e == 0 then none else some e

abbrev seed_settings : SeedSettings
seed_settings = record {
  face_reinforcement_similarity_threshold = 90;
  near_duplicate_similarity = 100;
  bib_only_seed_photo_limit = 10;
  bib_only_seed_cluster_min_photos = 2;
  majority_ratio = (3, 5);
  lead_ratio = (3, 2);
}

abbrev seen : ℕ → ℕ → Face ℕ
seen photo embedding = record { photo = photo; embedding = embedding }

abbrev faces : List (Face ℕ)
faces = seen 1 50 ∷ seen 1 20 ∷ seen 2 52 ∷ seen 2 0 ∷ seen 3 55 ∷ []

search_program : Unit {0}
unfolding program photo_count append_at cluster_score best_cluster put_face add_face cluster_from
    cluster_seed_faces add_seed dedupe_from dedupe_seed_embeddings insert_desc sort_desc
    eligible_clusters seeds_of choose select_consensus_seed_embeddings
search_program = tt

two_clusters :
    cluster_seed_faces closeness usable_if_positive seed_settings faces
    ≡ (seen 1 50 ∷ seen 2 52 ∷ seen 3 55 ∷ []) ∷ (seen 1 20 ∷ []) ∷ []
unfolding search_program
two_clusters = refl

consensus :
    select_consensus_seed_embeddings closeness usable_if_positive
      (λ _. 52)
      (λ face. face.embedding)
      seed_settings
      faces
      3
    ≡ 52 ∷ 55 ∷ []
unfolding search_program
consensus = refl

cluster_seed_faces-Perm_example :
    Permᴰ
      (concat (cluster_seed_faces closeness usable_if_positive seed_settings faces))
      (keep (is_usable closeness usable_if_positive seed_settings) faces)
    × All
        (λ cluster. is_empty cluster ≡ false)
        (cluster_seed_faces closeness usable_if_positive seed_settings faces)
cluster_seed_faces-Perm_example =
    cluster_seed_faces-Perm closeness usable_if_positive seed_settings faces

abbrev ascii : ℕ → Text
ascii c = []

abbrev runner : Participant
runner = record { participant_id = 9; bib_number = codes "m-12" }

abbrev other_runner : Participant
other_runner = record { participant_id = 8; bib_number = codes "44" }

abbrev bib_seen : List TextDetection
bib_seen = record { detected_text = codes "M 12"; confidence = some 80 } ∷ []

ocr_program : Unit {0}
unfolding program participant_by_bib match_participant match_values create_ocr_participant_matches
    normalize_match_token extract_match_candidates has_exact_bib_match exact_bib_match_values
ocr_program = tt

create_ocr_participant_matches-Complete_example :
    is_matched ascii
      (λ c. false)
      1
      7
      (other_runner ∷ runner ∷ [])
      9
      (create_ocr_participant_matches ascii
        (λ c. false)
        1
        7
        (other_runner ∷ runner ∷ [])
        bib_seen
        [])
    ≡ true
unfolding ocr_program
create_ocr_participant_matches-Complete_example =
    create_ocr_participant_matches-Complete ascii (λ c. false) 1 7 (other_runner ∷ runner ∷ [])
      runner bib_seen [] refl refl
