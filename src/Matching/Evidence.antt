-- ===== src/Matching/Evidence.antt =====
-- backend/app/face.py and backend/app/photographer.py: what the texts of a photo say for a bib, and
-- what that and a face score decide. A score is a number that orders as the float does.
use race_frame.Prelude.{
  ℕ, Bool, true, false, not, ◌&&◌, ◌||◌, List, [], ◌∷◌, ◌++◌, Option, some, leb, if◌then◌else◌,
  is_empty, take,
}
use race_frame.Matching.Token.{Text, text_eq, is_member, normalize_match_token}
use race_frame.Matching.Candidates.{extract_match_candidates}
use race_frame.Matching.Substring.{is_partial_bib_match}

pub data Strength : Type 0 where
  none weak medium strong : Strength

pub record BibEvidence : Type 0 where
  pub strength : Strength
  pub matched_values : List Text

-- Where the scan of the candidates stands: it has met the target, or it goes on.
pub data Scan : Type 0 where
  hit : Text → Scan
  going : List Text → Scan

module _ (target detected_text : Text) where
  abbrev pub note_partial : Text → List Text → List Text
  note_partial candidate weak_matches =
      if is_partial_bib_match candidate target
      then weak_matches ++ (detected_text ∷ [])
      else weak_matches

  -- The inner loop of `score_bib_evidence`.
  unfoldable pub scan_candidates : List Text → List Text → Scan
  scan_candidates weak_matches [] = going weak_matches
  scan_candidates weak_matches (candidate ∷ candidates) = elim (is_empty candidate) [
    | true ↦ scan_candidates weak_matches candidates
    | false ↦ elim (text_eq candidate target) [
      | true ↦ hit detected_text
      | false ↦ scan_candidates (note_partial candidate weak_matches) candidates
    ]
  ]

abbrev pub no_evidence : BibEvidence
no_evidence = record { strength = Strength.none; matched_values = [] }

unfoldable pub conclude : Scan → BibEvidence
conclude (hit found) = record { strength = strong; matched_values = found ∷ [] }
conclude (going []) = no_evidence
conclude (going (first ∷ rest)) = record { strength = weak; matched_values = take 3 (first ∷ rest) }

module _ (wide : ℕ → Text) where
  -- The outer loop; a detection is its text.
  unfoldable pub scan_detections : Text → List Text → List Text → Scan
  scan_detections target weak_matches [] = going weak_matches
  scan_detections target weak_matches (text ∷ texts) =
      elim (scan_candidates target text weak_matches (extract_match_candidates wide text)) [
        | hit found ↦ hit found
        | going more_matches ↦ scan_detections target more_matches texts
      ]

  unfoldable pub score_bib_evidence : List Text → Text → BibEvidence
  unfolding scan_detections scan_candidates conclude
  score_bib_evidence detections bib_number =
      let target = normalize_match_token bib_number in
      if is_empty target then no_evidence else conclude (scan_detections target [] detections)

  -- The inner loop of `exact_bib_match_values`: `seen` holds just the matched values.
  unfoldable pub match_candidates : Text → Text → List Text → List Text → List Text
  match_candidates target text matched [] = matched
  match_candidates target text matched (candidate ∷ candidates) =
      match_candidates target text
        (if not (text_eq candidate target) || is_member text matched
          then matched
          else matched ++ (text ∷ []))
        candidates

  unfoldable pub match_detections : Text → List Text → List Text → List Text
  match_detections target matched [] = matched
  match_detections target matched (text ∷ texts) =
      match_detections target
        (match_candidates target text matched (extract_match_candidates wide text)) texts

  unfoldable pub exact_bib_match_values : List Text → Text → List Text
  unfolding match_detections match_candidates
  exact_bib_match_values detections bib_number =
      let target = normalize_match_token bib_number in
      if is_empty target then [] else take 3 (match_detections target [] detections)

  unfoldable pub has_exact_bib_match : List Text → Text → Bool
  has_exact_bib_match detections bib_number =
      not (is_empty (exact_bib_match_values detections bib_number))

pub record Thresholds : Type 0 where
  pub face_candidate_similarity_threshold : ℕ
  pub face_medium_similarity_threshold : ℕ
  pub face_strong_similarity_threshold : ℕ
  pub face_reinforcement_similarity_threshold : ℕ

-- photographer.py
unfoldable pub classify_face_score : Thresholds → Option ℕ → Strength
classify_face_score t Option.none = Strength.none
classify_face_score t (some score) =
    if leb t.face_strong_similarity_threshold score
    then strong
    else if leb t.face_medium_similarity_threshold score
    then medium
    else if leb t.face_candidate_similarity_threshold score
    then weak
    else Strength.none

abbrev pub is_strong : Strength → Bool
is_strong strong = true
is_strong _ = false

abbrev pub is_medium : Strength → Bool
is_medium medium = true
is_medium _ = false

abbrev pub is_weak : Strength → Bool
is_weak weak = true
is_weak _ = false

-- photographer.py
unfoldable pub should_accept_hybrid_result : Strength → Strength → Bool
should_accept_hybrid_result face_strength bib_strength =
    if is_strong face_strength || is_strong bib_strength
    then true
    else if is_medium face_strength && is_weak bib_strength
    then true
    else false

unfoldable pub should_reinforce_face : Thresholds → ℕ → Strength → Bool
should_reinforce_face t face_score bib_strength =
    if leb t.face_strong_similarity_threshold face_score
    then true
    else if is_strong bib_strength && leb t.face_reinforcement_similarity_threshold face_score
    then true
    else false
