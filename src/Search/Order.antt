-- ===== src/Search/Order.antt =====
-- backend/app/face.py: the order in which jobs report does not matter to a match.
use mathlib.Core.List.{Permᴰ}
use race_frame.Prelude.{
  ℕ, ◌≡◌, refl, sym, ap, ◌∙◌, inl, inr, Bool, false, List, [], ◌∷◌, Option, none, some,
  if◌then◌else◌, arith, Bool-cases,
}
use race_frame.Search.Merge.{
  MatchSource, ocr, face, ocr_face, Match, merged_confidence, merged_source, is_match, merge_match,
  upsert_row, clamp_match_value, upsert_final_photo_participant_match,
}

-- The source and the confidence of a pair of a photo and a participant, if it has a match.
abbrev pub Summary : Type 0
Summary = Option (MatchSource × Option ℕ)

abbrev summary_of : Match → MatchSource × Option ℕ
summary_of row = (row.match_source, row.confidence)

merged_source_comm : (a b : MatchSource) → merged_source a b ≡ merged_source b a
unfolding merged_source
merged_source_comm ocr ocr = refl
merged_source_comm ocr face = refl
merged_source_comm ocr ocr_face = refl
merged_source_comm face ocr = refl
merged_source_comm face face = refl
merged_source_comm face ocr_face = refl
merged_source_comm ocr_face ocr = refl
merged_source_comm ocr_face face = refl
merged_source_comm ocr_face ocr_face = refl

merged_source_swap :
    (s a b : MatchSource)
    → merged_source (merged_source s a) b ≡ merged_source (merged_source s b) a
unfolding merged_source
merged_source_swap ocr a b = ground arith
merged_source_swap face a b = ground arith
merged_source_swap ocr_face a b = ground arith

merged_confidence_comm : (a b : Option ℕ) → merged_confidence a b ≡ merged_confidence b a
unfolding merged_confidence
merged_confidence_comm none none = refl
merged_confidence_comm none (some b) = refl
merged_confidence_comm (some a) none = refl
merged_confidence_comm (some a) (some b) = ground arith

merged_confidence_swap :
    (s a b : Option ℕ)
    → merged_confidence (merged_confidence s a) b ≡ merged_confidence (merged_confidence s b) a
unfolding merged_confidence
merged_confidence_swap none a b = merged_confidence_comm a b
merged_confidence_swap (some s) none none = refl
merged_confidence_swap (some s) none (some b) = refl
merged_confidence_swap (some s) (some a) none = refl
merged_confidence_swap (some s) (some a) (some b) = ground arith

module _ (photo_id participant_id : ℕ) where
  unfoldable pub summary : List Match → Summary
  summary [] = none
  summary (row ∷ rows) =
      if is_match photo_id participant_id row then some (summary_of row) else summary rows

  abbrev merge_summary : MatchSource × Option ℕ → Summary → MatchSource × Option ℕ
  merge_summary new none = new
  merge_summary (source, confidence) (some (old_source, old_confidence)) =
      (merged_source old_source source, merged_confidence old_confidence confidence)

  abbrev pub told : Match → Summary → Summary
  told new s =
      if is_match photo_id participant_id new then some (merge_summary (summary_of new) s) else s

  merge_summary_swap :
      (a b : MatchSource × Option ℕ) (s : Summary)
      → merge_summary a (some (merge_summary b s)) ≡ merge_summary b (some (merge_summary a s))
  merge_summary_swap (a_source, a) (b_source, b) none =
      ap (λ source. (source, merged_confidence b a)) (merged_source_comm b_source a_source)
      ∙ ap (λ confidence. (merged_source a_source b_source, confidence))
          (merged_confidence_comm b a)
  merge_summary_swap (a_source, a) (b_source, b) (some (source, confidence)) =
      ap (λ merged. (merged, merged_confidence (merged_confidence confidence b) a))
        (merged_source_swap source b_source a_source)
      ∙ ap (λ merged. (merged_source (merged_source source a_source) b_source, merged))
          (merged_confidence_swap confidence b a)

  told_comm : (a b : Match) (s : Summary) → told a (told b s) ≡ told b (told a s)
  told_comm a b s = elim (Bool-cases (is_match photo_id participant_id a)) [
    | inr e ↦ rw e refl
    | inl e ↦ elim (Bool-cases (is_match photo_id participant_id b)) [
      | inr f ↦ rw e rw f refl
      | inl f ↦ rw e rw f (ap some (merge_summary_swap (summary_of a) (summary_of b) s))
    ]
  ]

  pub summary-upsert_row :
      (new : Match) (rows : List Match) → summary (upsert_row new rows) ≡ told new (summary rows)
  unfolding summary upsert_row merge_match
  summary-upsert_row new [] = ground arith
  summary-upsert_row new (row ∷ rows) =
      elim (Bool-cases (is_match new.photo_id new.participant_id row)) [
        | inl e ↦
            rw e
              let same : is_match photo_id participant_id row
                    ≡ is_match photo_id participant_id new =
                  ground arith in
                elim (Bool-cases (is_match photo_id participant_id new)) [
                  | inl f ↦ rw (same ∙ f) rw f refl
                  | inr f ↦ rw (same ∙ f) rw f refl
                ]
        | inr e ↦ rw e elim (Bool-cases (is_match photo_id participant_id row)) [
          | inl f ↦
              let other : is_match photo_id participant_id new ≡ false = ground arith in
              rw f rw other refl
          | inr f ↦ rw f (summary-upsert_row new rows)
        ]
      ]

-- The reports of a run of jobs, the first one first.
unfoldable pub upsert_matches : (ℕ → Bool) → List Match → List Match → List Match
unfolding upsert_final_photo_participant_match
upsert_matches wide_space [] rows = rows
upsert_matches wide_space (new ∷ news) rows =
    upsert_matches wide_space news (upsert_final_photo_participant_match wide_space new rows)

module _ (wide_space : ℕ → Bool) (photo_id participant_id : ℕ) where
  told_all : List Match → Summary → Summary
  told_all [] s = s
  told_all (new ∷ news) s = told_all news (told photo_id participant_id new s)

  summary-upsert_matches :
      (news rows : List Match)
      → summary photo_id participant_id (upsert_matches wide_space news rows)
        ≡ told_all news (summary photo_id participant_id rows)
  unfolding upsert_matches told_all upsert_final_photo_participant_match
  summary-upsert_matches [] rows = refl
  summary-upsert_matches (new ∷ news) rows =
      summary-upsert_matches news (upsert_final_photo_participant_match wide_space new rows)
      ∙ ap (told_all news) (
          summary-upsert_row photo_id participant_id
            (record new { matched_value = clamp_match_value wide_space new.matched_value }) rows)

  told_all-Perm :
      {news others : List Match}
      → Permᴰ news others
      → (s : Summary) → told_all news s ≡ told_all others s
  unfolding told_all
  told_all-Perm Permᴰ.nil s = refl
  told_all-Perm (Permᴰ.cons {l₁ = l₁} {l₂ = l₂} same perm) s =
      told_all-Perm perm _ ∙ ap (λ new. told_all l₂ (told photo_id participant_id new s)) same
  told_all-Perm (Permᴰ.swap {a = a} {b = b} {a' = a'} {l = l} first second) s =
      ap (told_all l) (told_comm photo_id participant_id b a s)
      ∙ ap (λ new. told_all l (told photo_id participant_id a (told photo_id participant_id new s)))
          second
      ∙ ap
          (λ new. told_all l (told photo_id participant_id new (told photo_id participant_id a' s)))
          first
  told_all-Perm (Permᴰ.trans first second) s = told_all-Perm first s ∙ told_all-Perm second s

  -- Whatever the order in which reports come, a photo and a participant end with the same source and the same
  -- confidence.
  pub upsert_matches-Perm :
      {news others : List Match}
      → Permᴰ news others
      → (rows : List Match)
      → summary photo_id participant_id (upsert_matches wide_space news rows)
        ≡ summary photo_id participant_id (upsert_matches wide_space others rows)
  upsert_matches-Perm {news} {others} perm rows =
      summary-upsert_matches news rows
      ∙ (told_all-Perm perm (summary photo_id participant_id rows)
          ∙ sym (summary-upsert_matches others rows))
