-- ===== src/Recognition/BestScores.antt =====
-- backend/app/face.py: the score that `create_face_matches` leaves for a face and a participant.
use race_frame.Prelude.{
  ℕ, ◌≡◌, refl, sym, ap, ◌∙◌, Bool, true, false, ◌&&◌, List, [], ◌∷◌, Option, none, some, leb, ltb,
  ◌==◌, if◌then◌else◌, arith, Bool-cases, inl, inr,
}
use race_frame.Matching.Token.{Text}
use race_frame.Recognition.Tables.{FaceRow, EmbeddingRow, FaceMatch, Tables}
use race_frame.Recognition.Faces.{
  Scores, raise_score, is_face_match, upsert_face_match, best_by_participant, store_score,
  store_scores, create_face_matches,
}

-- The greater of two scores, where either may be missing.
abbrev pub higher : Option ℕ → Option ℕ → Option ℕ
higher none b = b
higher (some a) none = some a
higher (some a) (some b) = some (if leb a b then b else a)

higher_assoc : (a b c : Option ℕ) → higher (higher a b) c ≡ higher a (higher b c)
higher_assoc none b c = refl
higher_assoc (some a) none c = refl
higher_assoc (some a) (some b) none = refl
higher_assoc (some a) (some b) (some c) = ground arith

higher-none : (a : Option ℕ) → higher a none ≡ a
higher-none none = refl
higher-none (some a) = refl

higher_comm : (a b : Option ℕ) → higher a b ≡ higher b a
higher_comm none none = refl
higher_comm none (some b) = refl
higher_comm (some a) none = refl
higher_comm (some a) (some b) = ground arith

-- The last of three comes into the middle.
higher_swap : (a b c : Option ℕ) → higher (higher a b) c ≡ higher (higher a c) b
higher_swap a b c = higher_assoc a b c ∙ ap (higher a) (higher_comm b c) ∙ sym (higher_assoc a c b)

abbrev some_if : Bool → ℕ → Option ℕ
some_if b n = if b then some n else none

held : ℕ → Scores → Option ℕ
held participant_id [] = none
held participant_id ((p, score) ∷ scores) =
    higher (some_if (p == participant_id) score) (held participant_id scores)

held-raise_score :
    (participant_id p score : ℕ) (scores : Scores)
    → held participant_id (raise_score p score scores)
      ≡ higher (held participant_id scores) (some_if (p == participant_id) score)
unfolding held raise_score
held-raise_score participant_id p score [] = higher-none (some_if (p == participant_id) score)
held-raise_score participant_id p score ((q, current) ∷ scores) = elim (Bool-cases (q == p)) [
  | inl e ↦ rw e (same (held participant_id scores) e)
  | inr e ↦ rw e (
      ap (higher (some_if (q == participant_id) current))
        (held-raise_score participant_id p score scores)
      ∙ sym (
          higher_assoc (some_if (q == participant_id) current) (held participant_id scores)
            (some_if (p == participant_id) score)))
]
  where
    same :
        (rest : Option ℕ)
        → (q == p) ≡ true
        → higher (some_if (q == participant_id) (if ltb current score then score else current)) rest
          ≡ higher
              (higher (some_if (q == participant_id) current) rest)
              (some_if (p == participant_id) score)
    same none e = ground arith
    same (some r) e = ground arith

-- The score of a face and a participant in the table.
unfoldable pub score_of : ℕ → ℕ → List FaceMatch → Option ℕ
score_of face_id participant_id [] = none
score_of face_id participant_id (row ∷ rows) =
    higher
      (some_if (row.match_face_id == face_id && row.matched_participant_id == participant_id)
        row.match_score)
      (score_of face_id participant_id rows)

score_of-upsert_face_match :
    (face_id participant_id : ℕ) (new : FaceMatch) (rows : List FaceMatch)
    → score_of face_id participant_id (upsert_face_match new rows)
      ≡ higher (score_of face_id participant_id rows) (
          some_if
            (new.match_face_id == face_id && new.matched_participant_id == participant_id)
            new.match_score)
unfolding score_of upsert_face_match
score_of-upsert_face_match face_id participant_id new [] = higher-none (
    some_if (new.match_face_id == face_id && new.matched_participant_id == participant_id)
      new.match_score)
score_of-upsert_face_match face_id participant_id new (row ∷ rows) =
    elim (Bool-cases (is_face_match new row)) [
      | inl e ↦ rw e (same (score_of face_id participant_id rows) e)
      | inr e ↦
          let here =
            some_if (row.match_face_id == face_id && row.matched_participant_id == participant_id)
              row.match_score in
          rw e (
            ap (higher here) (score_of-upsert_face_match face_id participant_id new rows)
            ∙ sym (higher_assoc here (score_of face_id participant_id rows) _))
    ]
  where
    same :
        (rest : Option ℕ)
        → is_face_match new row ≡ true
        → higher
            (some_if
              (row.match_face_id == face_id && row.matched_participant_id == participant_id)
              (if leb new.match_score row.match_score then row.match_score else new.match_score))
            rest
          ≡ higher
              (higher
                (some_if
                  (row.match_face_id == face_id && row.matched_participant_id == participant_id)
                  row.match_score)
                rest)
              (some_if
                (new.match_face_id == face_id && new.matched_participant_id == participant_id)
                new.match_score)
    same none e = ground arith
    same (some r) e = ground arith

module _ {E : Type 0} (similarity : E → E → ℕ) (threshold : ℕ) where
  -- The best score of a face among the embeddings of a participant, if one reaches the threshold.
  unfoldable pub best_similarity : ℕ → E → List (EmbeddingRow E) → Option ℕ
  best_similarity participant_id embedding [] = none
  best_similarity participant_id embedding (row ∷ rows) =
      let score = similarity embedding row.enrolled_embedding in
      higher (some_if (row.participant_of == participant_id && leb threshold score) score)
        (best_similarity participant_id embedding rows)

  held-step :
      (participant_id p score : ℕ) (scores : Scores)
      → held participant_id (if ltb score threshold then scores else raise_score p score scores)
        ≡ higher
            (held participant_id scores)
            (some_if (p == participant_id && leb threshold score) score)
  held-step participant_id p score scores = elim (Bool-cases (ltb score threshold)) [
    | inl low ↦
        let not_enough : leb threshold score ≡ false = ground arith in
        let nothing : (p == participant_id && leb threshold score) ≡ false = ground arith in
        rw low rw nothing (sym (higher-none (held participant_id scores)))
    | inr high ↦
        let enough : leb threshold score ≡ true = ground arith in
        let just : (p == participant_id && leb threshold score) ≡ (p == participant_id) =
          ground arith in
        rw high rw just (held-raise_score participant_id p score scores)
  ]

  held-best_by_participant :
      (participant_id : ℕ) (embedding : E) (rows : List (EmbeddingRow E)) (scores : Scores)
      → held participant_id (best_by_participant similarity threshold embedding rows scores)
        ≡ higher (held participant_id scores) (best_similarity participant_id embedding rows)
  unfolding best_by_participant best_similarity
  held-best_by_participant participant_id embedding [] scores =
      sym (higher-none (held participant_id scores))
  held-best_by_participant participant_id embedding (row ∷ rows) scores =
      let score = similarity embedding row.enrolled_embedding in
      let here = some_if (row.participant_of == participant_id && leb threshold score) score in
      held-best_by_participant participant_id embedding rows
        (if ltb score threshold then scores else raise_score row.participant_of score scores)
      ∙ ap (λ o. higher o (best_similarity participant_id embedding rows))
          (held-step participant_id row.participant_of score scores)
      ∙ higher_assoc (held participant_id scores) here
          (best_similarity participant_id embedding rows)

  module _ (wide_space : ℕ → Bool) (four_digits : ℕ → Text) (detection : FaceRow E)
      (face_id participant_id : ℕ) where
    of_face : Option ℕ → Option ℕ
    of_face o = if detection.face_id == face_id then o else none

    of_face-higher : (a b : Option ℕ) → higher (of_face a) (of_face b) ≡ of_face (higher a b)
    unfolding of_face
    of_face-higher a b = ground arith

    of_face-some_if :
        (p score : ℕ)
        → some_if (detection.face_id == face_id && p == participant_id) score
          ≡ of_face (some_if (p == participant_id) score)
    unfolding of_face
    of_face-some_if p score = ground arith

    score_of-store_scores :
        (scores : Scores) (tables : Tables E)
        → score_of face_id participant_id
            (store_scores similarity threshold wide_space four_digits detection scores
              tables).face_matches
          ≡ higher
              (score_of face_id participant_id tables.face_matches)
              (of_face (held participant_id scores))
    unfolding store_scores store_score held
    score_of-store_scores [] tables = unfold of_face in ground arith
    score_of-store_scores ((p, score) ∷ scores) tables =
        let old = score_of face_id participant_id tables.face_matches in
        let here = some_if (p == participant_id) score in
        let stored =
          store_score similarity threshold wide_space four_digits detection p score tables in
        score_of-store_scores scores stored
        ∙ ap (λ o. higher o (of_face (held participant_id scores)))
            (score_of-upsert_face_match face_id participant_id _ tables.face_matches
              ∙ ap (higher old) (of_face-some_if p score))
        ∙ higher_assoc old (of_face here) (of_face (held participant_id scores))
        ∙ ap (higher old) (of_face-higher here (held participant_id scores))

    -- The score that is stored for a face and a participant is the greater of the one before and the best of the
    -- participant's embeddings that reaches the threshold, and the scores of other faces stay.
    pub create_face_matches-Best :
        (participant_embeddings : List (EmbeddingRow E)) (tables : Tables E)
        → score_of face_id participant_id
            (create_face_matches similarity threshold wide_space four_digits detection
              participant_embeddings tables).face_matches
          ≡ higher (score_of face_id participant_id tables.face_matches) (
              if detection.face_id == face_id
              then best_similarity participant_id detection.face_embedding participant_embeddings
              else none)
    unfolding create_face_matches of_face held
    create_face_matches-Best participant_embeddings tables =
        score_of-store_scores
          (best_by_participant similarity threshold detection.face_embedding participant_embeddings
            [])
          tables
        ∙ ap (λ o. higher (score_of face_id participant_id tables.face_matches) (of_face o))
            (held-best_by_participant participant_id detection.face_embedding participant_embeddings
              [])
