-- ===== src/Recognition/Bounded.antt =====
-- backend/app/face.py: how often `apply_adaptive_reinforcement` searches again.
use race_frame.Prelude.{
  ℕ, ◌≤◌, ◌≡◌, refl, ap, subst, Bool, true, false, List, [], ◌∷◌, Option, none, some,
  some-injective, leb, ◌==◌, map, length, arith, Bool-cases, Option-cases, inl, inr,
}
use race_frame.Matching.Token.{Text}
use race_frame.Search.Best.{SearchResult, create_face_search_results}
use race_frame.Recognition.Tables.{FaceRow}
use race_frame.Recognition.Reinforcement.{
  Evidence, Rounds, contains, is_supported, embedding_if_new, embedding_if, used_by, usable,
  as_detection, reinforced, reinforce_round, load_candidates, with_seen, run_round, second_round,
  apply_adaptive_reinforcement,
}

abbrev pub AreDistinct : List ℕ → Type 0
AreDistinct [] = Unit {0}
AreDistinct (x ∷ xs) = (contains x xs ≡ false) × AreDistinct xs

-- As many detections as were counted, no more than allowed, and each only once.
pub record IsBounded (limit : ℕ) (rounds : Rounds) : Type 0 where
  pub few : rounds.created_total ≤ limit
  pub counted : length rounds.reinforced_detection_ids ≡ rounds.created_total
  pub distinct : AreDistinct rounds.reinforced_detection_ids

module _ {E : Type 0} (evidence : Evidence E) where
  embedding_if_new-fresh :
      (row : FaceRow E) (ids : List ℕ) {embedding : E}
      → embedding_if_new evidence row ids ≡ some embedding
      → contains row.face_id ids ≡ false
  embedding_if_new-fresh row ids h = elim (Bool-cases (contains row.face_id ids)) [
    | inl used ↦ let nothing = rw used at h in cc
    | inr fresh ↦ fresh
  ]

  embedding_if-fresh :
      (supported : Bool) (row : FaceRow E) (ids : List ℕ) {face_id : ℕ} {embedding : E}
      → embedding_if evidence supported row ids ≡ some (face_id, embedding)
      → contains face_id ids ≡ false
  embedding_if-fresh false row ids h = cc
  embedding_if-fresh true row ids {face_id} h =
      elim (Option-cases (embedding_if_new evidence row ids)) [
        | inl missing ↦ let nothing = rw (missing, embedding_if) at h in cc
        | inr (found, is) ↦
            let same : row.face_id ≡ face_id =
              ap (λ (p : ℕ × E). p.0) (some-injective _ _ (rw (is, embedding_if) at h)) in
            subst (λ k. contains k ids ≡ false) same (embedding_if_new-fresh row ids is)
      ]

  usable-fresh :
      (require_exact_bib : Bool) (bib_number : Text) (result : SearchResult) (ids : List ℕ)
      {face_id : ℕ} {embedding : E}
      → usable evidence require_exact_bib bib_number result ids ≡ some (face_id, embedding)
      → contains face_id ids ≡ false
  unfolding usable
  usable-fresh require_exact_bib bib_number result ids h =
      go (evidence.texts_of result.result_photo_id) (evidence.face_of result.result_detection_id) h
    where
      go :
          (texts : Option (List Text)) (face : Option (FaceRow E)) {face_id : ℕ} {embedding : E}
          → used_by evidence require_exact_bib bib_number result texts face ids
            ≡ some (face_id, embedding)
          → contains face_id ids ≡ false
      go none face e = cc
      go (some texts) none e = cc
      go (some texts) (some row) e =
          embedding_if-fresh
            (is_supported evidence require_exact_bib bib_number result.similarity_score texts) row
            ids e

  reinforced-IsBounded :
      (rounds : Rounds) (face_id : ℕ) (created : ℕ × List SearchResult)
      → IsBounded evidence.face_reinforcement_max_embeddings rounds
      → leb evidence.face_reinforcement_max_embeddings rounds.created_total ≡ false
      → contains face_id rounds.reinforced_detection_ids ≡ false
      → IsBounded evidence.face_reinforcement_max_embeddings
          (reinforced evidence rounds face_id created)
  reinforced-IsBounded rounds face_id created b room fresh = record {
    few = ground arith;
    counted = omega (arith, b.counted);
    distinct = (fresh, b.distinct);
  }

  reinforce_round-IsBounded :
      (require_exact_bib : Bool) (bib_number : Text) (candidates : List SearchResult)
      (rounds : Rounds) {returned : Bool} {last : Rounds}
      → IsBounded evidence.face_reinforcement_max_embeddings rounds
      → reinforce_round evidence require_exact_bib bib_number candidates rounds
        ≡ some (returned, last)
      → IsBounded evidence.face_reinforcement_max_embeddings last
  unfolding reinforce_round
  reinforce_round-IsBounded require_exact_bib bib_number [] rounds b h =
      subst (IsBounded evidence.face_reinforcement_max_embeddings)
        (ap (λ (p : Bool × Rounds). p.1) (some-injective _ _ h)) b
  reinforce_round-IsBounded require_exact_bib bib_number (result ∷ candidates) rounds b h =
      elim (Bool-cases (leb evidence.face_reinforcement_max_embeddings rounds.created_total)) [
        | inl full ↦
            subst (IsBounded evidence.face_reinforcement_max_embeddings)
              (ap (λ (p : Bool × Rounds). p.1)
                (some-injective _ _ (rw (full, reinforce_round) at h)))
              b
        | inr room ↦
            elim (Option-cases (
              usable evidence require_exact_bib bib_number result
                rounds.reinforced_detection_ids)) [
                  | inl passed ↦
                      reinforce_round-IsBounded require_exact_bib bib_number candidates rounds b
                        (rw (room, reinforce_round, passed) at h)
                  | inr ((face_id, embedding), is) ↦
                      elim (Option-cases (
                        create_face_search_results evidence.search_settings
                          (evidence.similarity embedding)
                          (map (as_detection evidence) evidence.event_faces) rounds.results)) [
                            | inl failed ↦
                                let nothing = rw (room, reinforce_round, is, failed) at h in cc
                            | inr (created, made) ↦
                                reinforce_round-IsBounded require_exact_bib bib_number candidates
                                  (reinforced evidence rounds face_id created)
                                  (reinforced-IsBounded rounds face_id created b room (
                                    usable-fresh require_exact_bib bib_number result
                                      rounds.reinforced_detection_ids is))
                                  (rw (room, reinforce_round, is, made) at h)
                          ]
                ]
      ]

  run_round-IsBounded :
      (require_exact_bib : Bool) (bib_number : Text) (rounds : Rounds) {returned : Bool}
      {last : Rounds}
      → IsBounded evidence.face_reinforcement_max_embeddings rounds
      → run_round evidence require_exact_bib bib_number rounds ≡ some (returned, last)
      → IsBounded evidence.face_reinforcement_max_embeddings last
  unfolding run_round
  run_round-IsBounded require_exact_bib bib_number rounds b h =
      reinforce_round-IsBounded require_exact_bib bib_number (load_candidates evidence rounds)
        (with_seen evidence rounds)
        (record { few = b.few; counted = b.counted; distinct = b.distinct }) h

  ran-IsBounded :
      (o : Option (Bool × Rounds)) {last : Rounds}
      → elim o as (λ (_ : Option (Bool × Rounds)). Option Rounds) [
        | none ↦ none
        | some (returned, rounds) ↦ some rounds
      ]
        ≡ some last
      → (returned : Bool) × (o ≡ some (returned, last))
  ran-IsBounded none h = cc
  ran-IsBounded (some (returned, rounds)) h =
      (returned, ap (λ (r : Rounds). some (returned, r)) (some-injective _ _ h))

  second_round-IsBounded :
      (require_exact_bib : Bool) (bib_number : Text) (first : Option (Bool × Rounds))
      {last : Rounds}
      → ((returned : Bool) (rounds : Rounds)
          → first ≡ some (returned, rounds)
          → IsBounded evidence.face_reinforcement_max_embeddings rounds)
      → second_round evidence require_exact_bib bib_number first ≡ some last
      → IsBounded evidence.face_reinforcement_max_embeddings last
  second_round-IsBounded require_exact_bib bib_number none b h = cc
  second_round-IsBounded require_exact_bib bib_number (some (true, rounds)) b h =
      subst (IsBounded evidence.face_reinforcement_max_embeddings) (some-injective _ _ h)
        (b true rounds refl)
  second_round-IsBounded require_exact_bib bib_number (some (false, rounds)) b h =
      elim (Bool-cases (rounds.created_total == 0)) [
        | inl idle ↦
            subst (IsBounded evidence.face_reinforcement_max_embeddings)
              (some-injective _ _ (rw (idle, second_round) at h)) (b false rounds refl)
        | inr more ↦
            let (returned, ran) =
              ran-IsBounded (run_round evidence require_exact_bib bib_number rounds)
                (rw (more, second_round) at h) in
            run_round-IsBounded require_exact_bib bib_number rounds (b false rounds refl) ran
      ]

  -- A reinforcement that ends has searched again for as many faces as it counts, at most the configured number,
  -- and for none of them twice.
  pub apply_adaptive_reinforcement-IsBounded :
      (require_exact_bib : Bool) (participant_bib : Option Text) (results : List SearchResult)
      {last : Rounds}
      → apply_adaptive_reinforcement evidence require_exact_bib participant_bib results ≡ some last
      → IsBounded evidence.face_reinforcement_max_embeddings last
  unfolding apply_adaptive_reinforcement
  apply_adaptive_reinforcement-IsBounded require_exact_bib none results h =
      subst (IsBounded evidence.face_reinforcement_max_embeddings) (some-injective _ _ h)
        (record { few = omega arith; counted = refl; distinct = tt })
  apply_adaptive_reinforcement-IsBounded require_exact_bib (some bib_number) results h =
      let start : Rounds = record {
        results = results;
        seen = [];
        reinforced_detection_ids = [];
        created_total = 0;
      } in
      second_round-IsBounded require_exact_bib bib_number
        (run_round evidence require_exact_bib bib_number start)
        (λ returned rounds e.
          run_round-IsBounded require_exact_bib bib_number start
            (record { few = omega arith; counted = refl; distinct = tt }) e)
        h
