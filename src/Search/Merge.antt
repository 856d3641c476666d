-- ===== src/Search/Merge.antt =====
-- backend/app/face.py: `upsert_final_photo_participant_match`. Space beyond ASCII is an argument.
use race_frame.Prelude.{
  codes, ℕ, Bool, true, false, ◌&&◌, ◌||◌, List, [], ◌∷◌, ◌++◌, Option, none, some, leb, ltb, ◌==◌,
  if◌then◌else◌, take, or_text,
}
use race_frame.Matching.Token.{Text}

-- "ocr", "face" and "ocr+face".
pub data MatchSource : Type 0 where
  ocr face ocr_face : MatchSource

abbrev pub source_text : MatchSource → Text
source_text ocr = codes "ocr"
source_text face = codes "face"
source_text ocr_face = codes "ocr+face"

abbrev pub source_eq : MatchSource → MatchSource → Bool
source_eq ocr ocr = true
source_eq face face = true
source_eq ocr_face ocr_face = true
source_eq _ _ = false

-- A row of PhotoParticipantMatch; its status is always "auto_matched" here.
pub record Match : Type 0 where
  pub event_id : ℕ
  pub photo_id : ℕ
  pub participant_id : ℕ
  pub match_source : MatchSource
  pub matched_value : Text
  pub confidence : Option ℕ

abbrev is_space : (ℕ → Bool) → ℕ → Bool
is_space wide_space c =
    if ltb c 128 then c == 32 || ((leb 9 c && leb c 13) || (leb 28 c && leb c 31)) else wide_space c

unfoldable pub strip_start : (ℕ → Bool) → Text → Text
strip_start wide_space [] = []
strip_start wide_space (c ∷ s) = if is_space wide_space c then strip_start wide_space s else c ∷ s

abbrev keep_end : Bool → ℕ → Text → Text
keep_end true c [] = []
keep_end false c [] = c ∷ []
keep_end _ c (d ∷ s) = c ∷ d ∷ s

unfoldable pub strip_end : (ℕ → Bool) → Text → Text
strip_end wide_space [] = []
strip_end wide_space (c ∷ s) = keep_end (is_space wide_space c) c (strip_end wide_space s)

unfoldable pub clamp_match_value : (ℕ → Bool) → Text → Text
unfolding strip_start strip_end take
clamp_match_value wide_space value =
    or_text (some (take 255 (strip_end wide_space (strip_start wide_space value))))
      (codes "matched")

unfoldable pub merged_confidence : Option ℕ → Option ℕ → Option ℕ
merged_confidence none new = new
merged_confidence (some old) none = some old
merged_confidence (some old) (some new) = some (if leb new old then old else new)

unfoldable pub merged_source : MatchSource → MatchSource → MatchSource
merged_source old new =
    if source_eq old new then old else if source_eq old ocr_face then old else ocr_face

unfoldable pub merged_value : Match → Match → Text
unfolding take
merged_value old new =
    if source_eq old.match_source new.match_source
    then new.matched_value
    else take 255 (
        old.matched_value
        ++ (codes " | " ++ (source_text new.match_source ++ (codes ":" ++ new.matched_value))))

abbrev pub is_match : ℕ → ℕ → Match → Bool
is_match photo_id participant_id row =
    row.photo_id == photo_id && row.participant_id == participant_id

-- The conflict is on (photo_id, participant_id); the event of the row stays.
unfoldable pub merge_match : Match → Match → Match
unfolding merged_confidence merged_source merged_value
merge_match old new = record old {
  match_source = merged_source old.match_source new.match_source;
  matched_value = merged_value old new;
  confidence = merged_confidence old.confidence new.confidence;
}

unfoldable pub upsert_row : Match → List Match → List Match
unfolding merge_match
upsert_row new [] = new ∷ []
upsert_row new (row ∷ rows) =
    if is_match new.photo_id new.participant_id row
    then merge_match row new ∷ rows
    else row ∷ upsert_row new rows

unfoldable pub upsert_final_photo_participant_match : (ℕ → Bool) → Match → List Match → List Match
unfolding clamp_match_value upsert_row
upsert_final_photo_participant_match wide_space new rows =
    upsert_row (record new { matched_value = clamp_match_value wide_space new.matched_value }) rows
