-- ===== src/Search/Ocr.antt =====
-- backend/app/face.py: `create_ocr_participant_matches`.
use race_frame.Prelude.{
  ℕ, ◌≡◌, refl, sym, ap, ◌∙◌, subst, inl, inr, Bool, true, not, ◌&&◌, any, List, [], ◌∷◌, map,
  Option, none, some, if◌then◌else◌, is_empty, arith, Bool-cases,
}
use race_frame.Matching.Token.{Text, text_eq, text_eq_sound, normalize_match_token}
use race_frame.Matching.Candidates.{extract_match_candidates}
use race_frame.Matching.Evidence.{has_exact_bib_match}
use race_frame.Matching.Strong.{meets, exact-meets}
use race_frame.Search.Merge.{
  Match, ocr, is_match, upsert_final_photo_participant_match, clamp_match_value,
}
use race_frame.Search.Order.{summary, summary-upsert_row, told, Summary}
use race_frame.Search.Clusters.{is_some}

pub record Participant : Type 0 where
  pub participant_id : ℕ
  pub bib_number : Text

-- A row of PhotoTextDetection.
pub record TextDetection : Type 0 where
  pub detected_text : Text
  pub confidence : Option ℕ

-- `participants_by_bib.get(value)`: the last participant with the bib, without the empty bibs.
unfoldable pub participant_by_bib : Text → List Participant → Option Participant
participant_by_bib value [] = none
participant_by_bib value (p ∷ participants) = elim (participant_by_bib value participants) [
  | some last ↦ some last
  | none ↦
      let bib = normalize_match_token p.bib_number in
      if not (is_empty bib) && text_eq bib value then some p else none
]

module _ (wide : ℕ → Text) (wide_space : ℕ → Bool) (event_id photo_id : ℕ)
    (participants : List Participant) where
  abbrev reported : TextDetection → Text → Participant → Match
  reported detection value p = record {
    event_id = event_id;
    photo_id = photo_id;
    participant_id = p.participant_id;
    match_source = ocr;
    matched_value = clamp_match_value wide_space value;
    confidence = detection.confidence;
  }

  unfoldable pub match_participant :
      TextDetection → Text → Option Participant → List Match → List Match
  unfolding upsert_final_photo_participant_match
  match_participant detection value none rows = rows
  match_participant detection value (some p) rows =
      upsert_final_photo_participant_match wide_space
        (record {
          event_id = event_id;
          photo_id = photo_id;
          participant_id = p.participant_id;
          match_source = ocr;
          matched_value = value;
          confidence = detection.confidence;
        })
        rows

  unfoldable pub match_values : TextDetection → List Text → List Match → List Match
  unfolding match_participant participant_by_bib
  match_values detection [] rows = rows
  match_values detection (value ∷ values) rows =
      match_values detection values
        (match_participant detection value (participant_by_bib value participants) rows)

  unfoldable pub create_ocr_participant_matches : List TextDetection → List Match → List Match
  unfolding match_values extract_match_candidates
  create_ocr_participant_matches [] rows = rows
  create_ocr_participant_matches (detection ∷ detections) rows =
      create_ocr_participant_matches detections
        (match_values detection (extract_match_candidates wide detection.detected_text) rows)

  -- The photo has a match with the participant.
  abbrev pub is_matched : ℕ → List Match → Bool
  is_matched participant_id rows = is_some (summary photo_id participant_id rows)

  is_some-told :
      (participant_id : ℕ) (new : Match) (s : Summary)
      → is_some s ≡ true
      → is_some (told photo_id participant_id new s) ≡ true
  is_some-told participant_id new s h = elim (Bool-cases (is_match photo_id participant_id new)) [
    | inl e ↦ rw e refl
    | inr e ↦ rw e h
  ]

  match_participant-keeps :
      (participant_id : ℕ) (detection : TextDetection) (value : Text) (found : Option Participant)
      (rows : List Match)
      → is_matched participant_id rows ≡ true
      → is_matched participant_id (match_participant detection value found rows) ≡ true
  unfolding match_participant upsert_final_photo_participant_match
  match_participant-keeps participant_id detection value none rows h = h
  match_participant-keeps participant_id detection value (some p) rows h =
      rw (summary-upsert_row photo_id participant_id (reported detection value p) rows) (
        is_some-told participant_id (reported detection value p)
          (summary photo_id participant_id rows) h)

  match_participant-matches :
      (p : Participant) (detection : TextDetection) (value : Text) (rows : List Match)
      → is_matched p.participant_id (match_participant detection value (some p) rows) ≡ true
  unfolding match_participant upsert_final_photo_participant_match
  match_participant-matches p detection value rows =
      let is : is_match photo_id p.participant_id (reported detection value p) ≡ true =
        ground arith in
      rw (summary-upsert_row photo_id p.participant_id (reported detection value p) rows) rw is refl

  match_values-keeps :
      (participant_id : ℕ) (detection : TextDetection) (values : List Text) (rows : List Match)
      → is_matched participant_id rows ≡ true
      → is_matched participant_id (match_values detection values rows) ≡ true
  unfolding match_values
  match_values-keeps participant_id detection [] rows h = h
  match_values-keeps participant_id detection (value ∷ values) rows h =
      match_values-keeps participant_id detection values _ (
        match_participant-keeps participant_id detection value
          (participant_by_bib value participants) rows h)

  create_ocr_participant_matches-keeps :
      (participant_id : ℕ) (detections : List TextDetection) (rows : List Match)
      → is_matched participant_id rows ≡ true
      → is_matched participant_id (create_ocr_participant_matches detections rows) ≡ true
  unfolding create_ocr_participant_matches
  create_ocr_participant_matches-keeps participant_id [] rows h = h
  create_ocr_participant_matches-keeps participant_id (detection ∷ detections) rows h =
      create_ocr_participant_matches-keeps participant_id detections _ (
        match_values-keeps participant_id detection
          (extract_match_candidates wide detection.detected_text) rows h)

  module _ (p : Participant) (target : Text)
      (owner : participant_by_bib target participants ≡ some p) where
    match_values-matches :
        (detection : TextDetection) (values : List Text) (rows : List Match)
        → any (λ value. text_eq value target) values ≡ true
        → is_matched p.participant_id (match_values detection values rows) ≡ true
    unfolding match_values
    match_values-matches detection [] rows h = cc
    match_values-matches detection (value ∷ values) rows h =
        elim (Bool-cases (text_eq value target)) [
          | inr e ↦ match_values-matches detection values _ (rw e at h)
          | inl e ↦
              let found : participant_by_bib value participants ≡ some p =
                ap (λ v. participant_by_bib v participants) (text_eq_sound value target e)
                ∙ owner in
              match_values-keeps p.participant_id detection values _ (
                subst
                  (λ o.
                    is_matched p.participant_id (match_participant detection value o rows) ≡ true)
                  (sym found) (match_participant-matches p detection value rows))
        ]

    create_ocr_participant_matches-matches :
        (detections : List TextDetection) (rows : List Match)
        → any (meets wide target) (map (λ (d : TextDetection). d.detected_text) detections) ≡ true
        → is_matched p.participant_id (create_ocr_participant_matches detections rows) ≡ true
    unfolding create_ocr_participant_matches
    create_ocr_participant_matches-matches [] rows h = cc
    create_ocr_participant_matches-matches (detection ∷ detections) rows h =
        elim (Bool-cases (meets wide target detection.detected_text)) [
          | inr e ↦ create_ocr_participant_matches-matches detections _ (rw e at h)
          | inl e ↦ create_ocr_participant_matches-keeps p.participant_id detections _ (
              match_values-matches detection (extract_match_candidates wide detection.detected_text)
                rows e)
        ]

  -- A photo whose texts have an exact match for a participant's bib, the participant being the one that the
  -- event finds under the bib, has a match with the participant once its texts are stored.
  pub create_ocr_participant_matches-Complete :
      (p : Participant) (detections : List TextDetection) (rows : List Match)
      → participant_by_bib (normalize_match_token p.bib_number) participants ≡ some p
      → has_exact_bib_match wide
          (map (λ (d : TextDetection). d.detected_text) detections)
          p.bib_number
        ≡ true
      → is_matched p.participant_id (create_ocr_participant_matches detections rows) ≡ true
  create_ocr_participant_matches-Complete p detections rows owner exact =
      create_ocr_participant_matches-matches p (normalize_match_token p.bib_number) owner detections
        rows
        (exact-meets wide (map (λ (d : TextDetection). d.detected_text) detections) p.bib_number
          exact).1
